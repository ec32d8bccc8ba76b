-- ===== src/Kvraft/Command.antt =====
-- kvraft/server.go: what `manageApplyCh` does with a committed command.
pub mod Once
pub mod Repeat
use pp.Prelude.{ℕ, Bool, true, false, not, Option, none, some, ◌==◌, if◌then◌else◌, ◌>>=◌}
use pp.Kvraft.State.{
  OpCode, acquire, get, put, append, release, renew, failing_acquire, failing_locked, RequestArgs,
  NumberSet, NumberMap, with_number, without, set_last, Snapshot, KvServer,
}
use pp.Kvraft.Lock.{check_hold_lock, commit_op}

-- The client's last command: a new one says that it has seen the answer to the one before.
unfoldable pub note_last : RequestArgs → Option ℕ → Snapshot → Snapshot
note_last cmd none maps = record maps { last = set_last maps.last cmd.client_id cmd.seq }
note_last cmd (some v) maps = if v == cmd.seq then maps else record maps {
  unseen = without maps.unseen v;
  last = set_last maps.last cmd.client_id cmd.seq;
}

-- A command that is in neither set is put into both.
unfoldable pub add_new : RequestArgs → Snapshot → Snapshot
add_new cmd maps =
    if maps.unwritten cmd.seq then maps else if maps.unseen cmd.seq then maps else record maps {
      unwritten = with_number maps.unwritten cmd.seq;
      unseen = with_number maps.unseen cmd.seq;
    }

-- The bookkeeping before the command is looked at.
unfoldable pub record_command : RequestArgs → Snapshot → Snapshot
unfolding note_last add_new
record_command cmd maps = add_new cmd (note_last cmd (maps.last cmd.client_id) maps)

unfoldable pub failing_code : OpCode → OpCode
failing_code acquire = failing_acquire
failing_code get = failing_locked
failing_code put = failing_locked
failing_code append = failing_locked
failing_code release = failing_locked
failing_code renew = failing_locked
failing_code failing_acquire = failing_locked
failing_code failing_locked = failing_locked

unfoldable pub mark_failed : Bool → RequestArgs → RequestArgs
unfolding failing_code
mark_failed true cmd = cmd
mark_failed false cmd = record cmd { code = failing_code cmd.code }

-- A command that is not written yet is done; for another one only its code may change, to say whether
-- its client holds the lock now.
unfoldable pub write_command : RequestArgs → Snapshot → Option (Snapshot × RequestArgs)
unfolding mark_failed
write_command cmd maps =
    if maps.unwritten cmd.seq
    then (do
      (kvm', done) ← commit_op cmd maps.kvm
      some (
        record maps { kvm = kvm'; unwritten = without maps.unwritten cmd.seq },
        mark_failed done cmd,
      ))
    else some (maps, mark_failed (check_hold_lock cmd maps.kvm) cmd)

-- `none` is a panic. The results are the server, the command as it is published, and whether it is.
unfoldable pub apply_command : ℕ → RequestArgs → KvServer → Option (KvServer × RequestArgs × Bool)
unfolding record_command write_command
apply_command index cmd kv = do
  (maps, cmd') ← write_command cmd (record_command cmd kv.maps)
  some (record kv { maps = maps; topidx = index }, cmd', maps.unseen cmd.seq)

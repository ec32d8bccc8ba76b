-- ===== src/Kvraft/Tests.antt =====
-- The key-value service on concrete inputs.
use pp.Prelude.{
  ℕ, ◌+◌, ltb, ◌≡◌, refl, true, false, Option, none, some, List, [], ◌∷◌, ◌==◌, Returns, arith,
  if◌then◌else◌,
}
use pp.Text.{codes, split}
use pp.Text.Decimal.{parse_uint0, format, digits}
use pp.Raft.Persist.{fresh}
use pp.Raft.Log.{entry_at}
use pp.Raft.State.{Raft}
use pp.Kvraft.State.{
  put, failing_locked, acquire, RequestArgs, StringMap, store, Snapshot, KvServer, empty_maps,
  with_number, set_last,
}
use pp.Kvraft.Lock.{
  lock_key, lock_value, commit_op, by_code, try_acquire, if_held, check_hold_lock, first_part,
}
use pp.Kvraft.Lock.Effect.{DoneIf, commit_op-exclusive}
use pp.Kvraft.Lock.Lease.{commit_op-lease}
use pp.Kvraft.Command.{
  apply_command, record_command, note_last, add_new, write_command, mark_failed, failing_code,
}
use pp.Kvraft.Command.Repeat.{apply_command-once, finished, command, other}
use pp.Kvraft.Snapshots.{take_snapshot, pull_latest_snapshot}
use pp.Kvraft.Snapshots.Kept.{take_snapshot-pulled}

abbrev nothing : StringMap
nothing = λ _. none

abbrev lock_a : RequestArgs
lock_a = record { client_id = 5; seq = 70; code = acquire; key = codes "a"; value = codes "100" }

abbrev put_a : RequestArgs
put_a = record { client_id = 6; seq = 80; code = put; key = codes "a"; value = codes "x" }

abbrev locked : StringMap
locked = store nothing (lock_key (codes "a")) (lock_value lock_a)

lock_a-done : commit_op lock_a nothing ≡ some (locked, true)
unfolding commit_op by_code try_acquire
lock_a-done = refl

commit_op-exclusive_example : Returns (commit_op put_a locked) (DoneIf (5 == 6) locked)
commit_op-exclusive_example =
    commit_op-exclusive lock_a put_a nothing locked (omega arith) refl lock_a-done refl refl

-- Another client asks for the lock ten seconds later, within the lease.
abbrev lock_again : RequestArgs
lock_again = record {
  client_id = 6;
  seq = 81;
  code = acquire;
  key = codes "a";
  value = codes "110";
}

printed_100 : codes "100" ≡ format 100
unfolding format digits
printed_100 = refl

printed_110 : codes "110" ≡ format 110
unfolding format digits
printed_110 = refl

commit_op-lease_example : Returns (commit_op lock_again locked) (DoneIf (ltb (100 + 30) 110) locked)
commit_op-lease_example =
    commit_op-lease lock_a lock_again nothing locked 100 110 (omega arith, omega arith)
      (omega arith, omega arith) printed_100 printed_110 refl lock_a-done refl refl

abbrev started : KvServer
started = record { maps = empty_maps; topidx = 0 }

abbrev after_lock : KvServer
after_lock = record {
  maps = record {
    kvm = store (λ _. none) (lock_key (codes "a")) (lock_value lock_a);
    unwritten = λ n. if 70 == n then false else if 70 == n then true else false;
    unseen = with_number (λ _. false) 70;
    last = set_last (λ _. none) 5 70;
  };
  topidx = 1;
}

lock_a-applied : apply_command 1 lock_a started ≡ some (after_lock, lock_a, true)
unfolding apply_command record_command note_last add_new write_command mark_failed commit_op by_code
    try_acquire
lock_a-applied = refl

abbrev after_put : KvServer
after_put = record {
  maps = record {
    kvm = locked;
    unwritten = λ n. if 80 == n then false else if 80 == n then true else after_lock.unwritten n;
    unseen = with_number after_lock.unseen 80;
    last = set_last after_lock.last 6 80;
  };
  topidx = 2;
}

abbrev put_a-refused : RequestArgs
put_a-refused = record put_a { code = failing_locked }

put_a-applied : apply_command 2 put_a after_lock ≡ some (after_put, put_a-refused, true)
unfolding apply_command record_command note_last add_new write_command mark_failed failing_code
    commit_op by_code if_held check_hold_lock first_part split parse_uint0 format digits
put_a-applied = refl

apply_command-once_example :
    apply_command 3 lock_a after_put
    ≡ some (
      record after_put { topidx = 3 },
      mark_failed (check_hold_lock lock_a after_put.kvm) lock_a,
      true,
    )
apply_command-once_example =
    apply_command-once 1 3 lock_a started after_lock after_put lock_a true (λ n. refl) (λ c d e. cc)
      lock_a-applied
      (command 2 (other (λ e. omega (arith, e), λ e. omega (arith, e))) put_a-applied finished)

-- A server whose log holds the lock's command at index 1.
abbrev logged : Raft RequestArgs
logged = record (fresh 3 1 none) {
  log = some (record { term = 0; cmd = none }) ∷ some (record { term = 1; cmd = some lock_a }) ∷ [];
  commit_idx = 1;
  applied_idx = 1;
}

abbrev encode : Snapshot → Option (List ℕ)
encode s = some (7 ∷ [])

abbrev decode : List ℕ → Option Snapshot
decode b = some after_lock.maps

logged-1 : entry_at logged.log 1 ≡ some (record { term = 1; cmd = some lock_a })
unfolding entry_at
logged-1 = refl

take_snapshot-pulled_example : Returns (take_snapshot encode decode after_lock logged) (λ rf.
    pull_latest_snapshot encode decode rf.saved started ≡ record started { maps = after_lock.maps })
take_snapshot-pulled_example =
    take_snapshot-pulled encode decode after_lock started logged (7 ∷ [])
      (record { term = 1; cmd = some lock_a }) refl refl (omega arith) (omega arith) logged-1

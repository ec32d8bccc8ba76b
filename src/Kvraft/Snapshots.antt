-- ===== src/Kvraft/Snapshots.antt =====
-- kvraft/snapshot.go: the service's part of a snapshot; kvraft/server.go: one message for
-- `manageApplyCh`.
pub mod Kept
use pp.Prelude.{
  ℕ, ◌+◌, ◌-◌, ◌≤◌, ◌<◌, ◌≡◌, refl, Bool, true, false, Option, none, some, List, [], length, ltb,
  leb, if◌then◌else◌, ◌>>=◌, Returns, arith,
}
use pp.Prelude.Int.{ℤ, pos, negsuc}
use pp.Raft.State.{Saved, Raft, ApplyMsg, command, install}
use pp.Raft.Snapshot.{cond_install_snapshot, snapshot_to}
use pp.Kvraft.Command.{apply_command}
use pp.Kvraft.State.{RequestArgs, Snapshot, KvServer}

-- rsz >= maxraftsz - 1
at_limit : ℕ → ℕ → Bool
at_limit size limit = leb limit (size + 1)

-- `size` is that of the persister's file; a negative limit means that there are no snapshots.
unfoldable pub should_snapshot : ℤ → ℕ → Bool
unfolding at_limit
should_snapshot (negsuc n) size = false
should_snapshot (pos limit) size = at_limit limit size

pulled : Option Snapshot → KvServer → KvServer
pulled none kv = kv
pulled (some s) kv = record kv { maps = s }

-- Another package's encoder and decoder: `none` is their error.
module _ (encode : Snapshot → Option (List ℕ)) (decode : List ℕ → Option Snapshot) where
  unfoldable pub take_snapshot : KvServer → Raft RequestArgs → Option (Raft RequestArgs)
  take_snapshot kv rf = do b ← encode kv.maps; snapshot_to kv.topidx b rf

  unfoldable pub consider_apply_msg :
      List ℕ → ℕ → ℕ → KvServer → Raft RequestArgs → Option (KvServer × Raft RequestArgs)
  consider_apply_msg data_ term index kv rf = do
    s ← decode data_
    (rf', installed) ← cond_install_snapshot term index data_ rf
    some (if installed then record kv { maps = s } else kv, rf')

  -- On startup, from what the persister holds.
  unfoldable pub pull_latest_snapshot : Option (Saved RequestArgs) → KvServer → KvServer
  unfolding pulled
  pull_latest_snapshot none kv = kv
  pull_latest_snapshot (some d) kv = pulled (decode d.snapshot) kv

  -- A snapshot follows a command when the persister's file has grown to the limit; `size` is what it has then.
  snapshot_if : Bool → KvServer → Raft RequestArgs → Option (Raft RequestArgs)
  snapshot_if false kv rf = some rf
  snapshot_if true kv rf = take_snapshot kv rf

  -- One message. The last result is the command that is published, if one is; a command that is nil is a panic.
  unfoldable pub manage_message :
      ℤ
      → (Option (Saved RequestArgs) → ℕ)
      → ApplyMsg RequestArgs
      → KvServer
      → Raft RequestArgs
      → Option (KvServer × Raft RequestArgs × Option RequestArgs)
  unfolding snapshot_if
  manage_message limit size (install data_ term index) kv rf = do
    (kv', rf') ← consider_apply_msg data_ term index kv rf
    some (kv', rf', none)
  manage_message limit size (command index none) kv rf = none
  manage_message limit size (command index (some cmd)) kv rf = do
    (kv', cmd', published) ← apply_command index cmd kv
    rf' ← snapshot_if (should_snapshot limit (size rf.saved)) kv' rf
    some (kv', rf', if published then some cmd' else none)

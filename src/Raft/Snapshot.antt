-- ===== src/Raft/Snapshot.antt =====
-- raft/fns.go: `doInstallSnapshot`; raft/raft.go: `InstallSnapshot`, `CondInstallSnapshot` and
-- `Snapshot`.
pub mod Install
use pp.Prelude.{
  ℕ, zero, suc, ◌+◌, ◌-◌, Bool, true, false, Option, none, some, List, [], ◌∷◌, ◌++◌, length, set,
  ltb, ◌==◌, if◌then◌else◌, ◌>>=◌, ◌>>◌, guard,
}
use pp.Raft.State.{LogEntry, Raft, ApplyMsg, install, InstallSnapshotArgs}
use pp.Raft.Log.{Slots, entry_at}
use pp.Raft.Persist.{persist, msg_common}
use pp.Raft.Vote.{other_is_recent}

module _ {C : Type 0} where
  -- One round of the loop that gives up the head of the log: a nil entry at index `i`.
  clear_at : ℕ → Slots C → Option (Slots C)
  clear_at i log =
      if length log == i
      then some (log ++ none ∷ [])
      else if ltb i (length log)
      then some (set log i none)
      else none

  -- `n` rounds from index `i` on.
  clear : ℕ → ℕ → Slots C → Option (Slots C)
  clear zero i log = some log
  clear (suc n) i log = do log' ← clear_at i log; clear n (suc i) log'

  -- The entry at the snapshot's index, which keeps the term.
  mark : ℕ → ℕ → Slots C → Option (Slots C)
  mark index term log =
      if length log == index
      then some (log ++ some (record { term = term; cmd = none }) ∷ [])
      else (do e ← entry_at log index; some (set log index (some (record e { term = term }))))

  move_commit : ℕ → Bool → Raft C → Raft C
  move_commit index true rf = record rf { commit_idx = index; applied_idx = index }
  move_commit index false rf = rf

  unfoldable pub do_install_snapshot : ℕ → ℕ → List ℕ → Bool → Raft C → Option (Raft C)
  unfolding clear clear_at mark move_commit
  do_install_snapshot index term snapshot change_commit rf = do
    cleared ← clear (index - rf.snapshot_index) rf.snapshot_index rf.log
    log ← mark index term cleared
    let rf' : Raft C = record rf { log = log; snapshot = snapshot; snapshot_index = index }
    persist (move_commit index change_commit rf')

  -- The reply is the term. A snapshot of a current leader goes to the service.
  unfoldable pub install_snapshot : ℕ → InstallSnapshotArgs → Raft C → Option (Raft C × ℕ)
  install_snapshot now args rf₀ = do
    (rf, _) ← msg_common args.term rf₀
    some (
        if ltb args.term rf.term then (rf, rf.term) else (
          record rf {
            ts = now;
            disam =
                rf.disam
                ++ install args.bytes args.last_included_term args.last_included_index ∷ [];
          },
          rf.term,
        ))

  unfoldable pub install_if : ℕ → ℕ → List ℕ → Raft C → Bool → Option (Raft C × Bool)
  install_if term index snapshot rf false = some (rf, false)
  install_if term index snapshot rf true = do
    rf' ← do_install_snapshot index term snapshot true rf
    some (rf', true)

  -- The service's answer to such a message: install it, unless the log is ahead of it.
  unfoldable pub cond_install_snapshot : ℕ → ℕ → List ℕ → Raft C → Option (Raft C × Bool)
  unfolding install_if
  cond_install_snapshot term index snapshot rf = do
    recent ← other_is_recent rf index term
    install_if term index snapshot rf recent

  -- The service has made a snapshot of all up to `index`.
  unfoldable pub snapshot_to : ℕ → List ℕ → Raft C → Option (Raft C)
  snapshot_to index snapshot rf = do
    e ← entry_at rf.log index
    do_install_snapshot index e.term snapshot false rf

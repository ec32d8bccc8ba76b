-- ===== src/Raft/Heartbeat.antt =====
-- raft/fns.go: `doHeartbeat`, with the routines that handle the replies.
use pp.Prelude.{
  ℕ, zero, suc, ◌+◌, ◌-◌, Bool, true, false, not, Option, none, some, List, [], ◌∷◌, length, set,
  get_elem?, drop, ltb, ◌==◌, if◌then◌else◌, ◌>>=◌,
}
use pp.Prelude.Int.{ℤ, pos, negsuc, pred_ℤ, is_positive}
use pp.Raft.State.{LogEntry, Raft, AppendEntriesArgs, AppendEntriesReply, InstallSnapshotArgs}
use pp.Raft.Log.{Slots, entry_at, live_entries}
use pp.Raft.Persist.{msg_common}
use pp.Raft.Append.{first_index_for_term}

-- A call that a routine of the heartbeat makes.
pub data Call (C : Type 0) : Type 0 where
  append_to : (server : ℕ) → AppendEntriesArgs C → Call C
  install_on : (server : ℕ) → InstallSnapshotArgs → Call C

-- An index of the log, which must not be negative.
unfoldable pub to_index : ℤ → Option ℕ
to_index (pos n) = some n
to_index (negsuc n) = none

-- A write to a slice panics out of range.
unfoldable pub set_checked {ℓ} : {A : Type ℓ} → List A → ℕ → A → Option (List A)
set_checked xs i v = if ltb i (length xs) then some (set xs i v) else none

module _ {C : Type 0} where
  -- The arguments for a server that is to get what follows index `lli`, and those that send it the
  -- snapshot, where the entry at `lli` is nil.
  unfoldable pub append_args : ℕ → LogEntry C → Raft C → Option (AppendEntriesArgs C)
  append_args lli e rf = do
    entries ← live_entries (drop (suc lli) rf.log)
    some (record {
      term = rf.term;
      leader_id = rf.me;
      last_log_index = lli;
      last_log_term = e.term;
      entries = entries;
      leader_commit_idx = rf.commit_idx;
    })

  unfoldable pub snapshot_args : Raft C → Option InstallSnapshotArgs
  snapshot_args rf = do
    e ← entry_at rf.log rf.snapshot_index
    some (record {
      term = rf.term;
      leader_id = rf.me;
      last_included_index = rf.snapshot_index;
      last_included_term = e.term;
      bytes = rf.snapshot;
    })

  call_from : ℕ → ℕ → Option (Option (LogEntry C)) → Raft C → Option (Call C)
  call_from i lli none rf = none
  call_from i lli (some none) rf = do args ← snapshot_args rf; some (install_on i args)
  call_from i lli (some (some e)) rf = do args ← append_args lli e rf; some (append_to i args)

  -- The call for another server.
  unfoldable pub call_for : ℕ → Raft C → Option (Call C)
  unfolding call_from
  call_for i rf = do
    next ← get_elem? rf.next_for_server i
    lli ← to_index (pred_ℤ next)
    call_from i lli (get_elem? rf.log lli) rf

  -- The leader's own place in the tables.
  unfoldable pub note_self : Raft C → Option (Raft C)
  unfolding set_checked
  note_self rf = do
    at_server ← set_checked rf.at_server rf.me (length rf.log - 1)
    next_for_server ← set_checked rf.next_for_server rf.me (pos (length rf.log))
    some (record rf { at_server = at_server; next_for_server = next_for_server })

  unfoldable pub beat_one : ℕ → List (Call C) → Raft C → Option (Raft C × List (Call C))
  beat_one i calls rf =
      if i == rf.me
      then (do rf' ← note_self rf; some (rf', calls))
      else (do c ← call_for i rf; some (rf, c ∷ calls))

  -- The servers from `i` on, of which `n` are left; the last call comes first.
  unfoldable pub beat : ℕ → ℕ → List (Call C) → Raft C → Option (Raft C × List (Call C))
  beat zero i calls rf = some (rf, calls)
  beat (suc n) i calls rf = do (rf', calls') ← beat_one i calls rf; beat n (suc i) calls' rf'

  unfoldable pub do_heartbeat : ℕ → Raft C → Option (Raft C × List (Call C))
  unfolding beat beat_one note_self
  do_heartbeat now rf = beat rf.peers 0 [] (record rf { ts = now })

  -- Where a refused server goes on: `none` leaves its place as it is.
  unfoldable pub next_after : AppendEntriesReply → Slots C → Option ℤ
  next_after reply log =
      let ni = first_index_for_term reply.x_term log in
      if is_positive reply.x_term
      then some (if is_positive ni then ni else reply.x_index)
      else if is_positive reply.x_len
      then some reply.x_len
      else none

  unfoldable pub move_next : ℕ → Option ℤ → Raft C → Option (Raft C)
  move_next j none rf = some rf
  move_next j (some n) rf = do
    next ← set_checked rf.next_for_server j n
    some (record rf { next_for_server = next })

  unfoldable pub note_append :
      ℕ → AppendEntriesArgs C → AppendEntriesReply → Raft C → Bool → Option (Raft C)
  note_append j args reply rf false = some rf
  note_append j args reply rf true =
      if not reply.success then move_next j (next_after reply rf.log) rf else (do
        let there = args.last_log_index + length args.entries
        at_server ← set_checked rf.at_server j there
        next ← set_checked rf.next_for_server j (pos (there + 1))
        some (record rf { at_server = at_server; next_for_server = next }))

  -- The reply of server `j` to `args`.
  unfoldable pub handle_append_reply :
      ℕ → AppendEntriesArgs C → AppendEntriesReply → Raft C → Option (Raft C)
  unfolding note_append move_next set_checked
  handle_append_reply j args reply rf₀ = do
    (rf, res) ← msg_common reply.term rf₀
    note_append j args reply rf res

  unfoldable pub note_install : ℕ → InstallSnapshotArgs → Raft C → Bool → Option (Raft C)
  note_install j args rf false = some rf
  note_install j args rf true = do
    next ← set_checked rf.next_for_server j (pos (args.last_included_index + 1))
    some (record rf { next_for_server = next })

  unfoldable pub handle_install_reply : ℕ → InstallSnapshotArgs → ℕ → Raft C → Option (Raft C)
  unfolding note_install set_checked
  handle_install_reply j args term rf₀ = do
    (rf, res) ← msg_common term rf₀
    note_install j args rf res

-- ===== src/Raft/Append.antt =====
-- raft/raft.go: `AppendEntries`; raft/fns.go: `firstIndexForTerm`.
pub mod First
pub mod Hints
pub mod Result
pub mod Reply
use pp.Prelude.{
  ℕ, zero, suc, ◌+◌, ◌-◌, ◌≤◌, ◌<◌, ◌≡◌, refl, Bool, true, false, Option, none, some, List, [], ◌∷◌,
  ◌++◌, map, arith, length, take, get_elem?, ltb, leb, ◌==◌, if◌then◌else◌, ◌>>=◌, Returns,
}
use pp.Prelude.Int.{ℤ, pos, minus_one, eq_ℤ}
use pp.Raft.State.{LogEntry, Raft, follower, AppendEntriesArgs, AppendEntriesReply}
use pp.Raft.Log.{Slots}
use pp.Raft.Persist.{persist, msg_common}
use pp.Raft.Apply.{apply_outstanding}

abbrev pub failure : ℕ → ℤ → ℤ → ℤ → AppendEntriesReply
failure t x_term x_index x_len = record {
  term = t;
  success = false;
  x_term = x_term;
  x_index = x_index;
  x_len = x_len;
}

abbrev pub success_in : ℕ → AppendEntriesReply
success_in t = record {
  term = t;
  success = true;
  x_term = minus_one;
  x_index = minus_one;
  x_len = minus_one;
}

module _ {C : Type 0} where
  -- The loop over `rf.log` from index `i` on.
  first_from : ℤ → ℕ → Slots C → ℤ
  first_from t i [] = minus_one
  first_from t i (none ∷ xs) = first_from t (suc i) xs
  first_from t i (some e ∷ xs) = elim (eq_ℤ (pos e.term) t) [
    | true ↦ pos i
    | false ↦ first_from t (suc i) xs
  ]

  unfoldable pub first_index_for_term : ℤ → Slots C → ℤ
  unfolding first_from
  first_index_for_term t log = first_from t 0 log

  -- An entry behind the agreed one: delete it and what follows.
  overwrite : ℕ → Raft C → Option (Raft C)
  overwrite lli rf =
      if ltb (lli + 1) (length rf.log)
      then persist (record rf { log = take (suc lli) rf.log })
      else some rf

  extend : List (LogEntry C) → Raft C → Option (Raft C)
  extend [] rf = some rf
  extend (e ∷ es) rf = persist (record rf { log = rf.log ++ map some (e ∷ es) })

  -- The smaller of the last index and the leader's commit index.
  follow_commit : ℕ → Raft C → Option (Raft C)
  follow_commit lci rf =
      let last_ent = length rf.log - 1 in
      if ltb rf.commit_idx lci
      then apply_outstanding (record rf { commit_idx = if ltb last_ent lci then last_ent else lci })
      else some rf

  pub accept : AppendEntriesArgs C → Raft C → Option (Raft C)
  accept args rf = do
    rf₁ ← overwrite args.last_log_index rf
    rf₂ ← extend args.entries rf₁
    follow_commit args.leader_commit_idx rf₂

  -- The checks of the entry at the leader's last index: `none` is a log that is too short, and
  -- `some none` a nil entry.
  pub check_entry :
      AppendEntriesArgs C
      → Raft C
      → Option (Option (LogEntry C))
      → Option (Raft C × AppendEntriesReply)
  check_entry args rf none = some (rf, failure rf.term minus_one minus_one (pos (length rf.log)))
  check_entry args rf (some none) = some (rf, failure rf.term minus_one minus_one minus_one)
  check_entry args rf (some (some e)) =
      if e.term == args.last_log_term
      then (do rf' ← accept args rf; some (rf', success_in rf.term))
      else some
          (rf, failure rf.term (pos e.term) (first_index_for_term (pos e.term) rf.log) minus_one)

  -- `now` is the clock.
  unfoldable pub append_entries :
      ℕ → AppendEntriesArgs C → Raft C → Option (Raft C × AppendEntriesReply)
  unfolding check_entry accept overwrite extend follow_commit
  append_entries now args rf₀ = do
    (rf, _) ← msg_common args.term rf₀
    if ltb args.term rf.term
        then some (rf, failure rf.term minus_one minus_one minus_one)
        else let rf' : Raft C = record rf { ts = now; st = follower } in
          check_entry args rf' (get_elem? rf'.log args.last_log_index)

-- ===== src/Raft/Vote.antt =====
-- raft/raft.go: `RequestVote`; raft/fns.go: `otherIsRecent`.
pub mod Grant
use pp.Prelude.{
  ℕ, zero, suc, ◌+◌, ◌-◌, ◌≤◌, ◌<◌, ◌≡◌, refl, Bool, true, false, not, ◌&&◌, ◌||◌, Option, none,
  some, List, [], ◌∷◌, ◌++◌, map, arith, length, ltb, leb, ◌==◌, if◌then◌else◌, ◌>>=◌, ◌>>◌, guard,
  Returns, ◌↔◌, ◌⊎◌, inl, inr, ◌≢◌, Bool-cases, ltb→lt,
}
use pp.Prelude.Int.{ℤ, minus_one, eq_ℤ, eq_ℤ_iff}
use pp.Raft.State.{
  Role, leader, follower, candidate, LogEntry, Raft, RequestVoteArgs, RequestVoteReply,
}
use pp.Raft.Log.{entry_at, last_entry, IsTrimmed, IsTrimmed-length, last_entry-IsTrimmed}
use pp.Raft.Persist.{
  persist, kept, to_save, msg_common, joined, HasLog, persist-HasLog, msg_common-HasLog,
}

module _ {C : Type 0} where
  -- Is a log that ends at index `oi`, with an entry of term `ot`, as recent as ours?
  unfoldable pub other_is_recent : Raft C → ℕ → ℕ → Option Bool
  other_is_recent rf oi ot = do
    let mi = length rf.log - 1
    e ← last_entry rf.log
    some (
        if ltb e.term ot
        then true
        else if ltb ot e.term
        then false
        else if leb mi oi
        then true
        else false)

  -- The part of the handler behind the check of the term.
  cast : ℕ → RequestVoteArgs → Raft C → Bool → Option (Raft C × RequestVoteReply)
  cast now args rf recent =
      if not recent
      then some (rf, record { term = rf.term; vote_granted = false })
      else if eq_ℤ rf.voted_for minus_one || eq_ℤ rf.voted_for args.candidate_id
      then (do
        rf' ← persist (record rf { ts = now; voted_for = args.candidate_id })
        some (rf', record { term = rf.term; vote_granted = true }))
      else some (rf, record { term = rf.term; vote_granted = false })

  vote : ℕ → RequestVoteArgs → Raft C → Option (Raft C × RequestVoteReply)
  unfolding cast
  vote now args rf = do
    recent ← other_is_recent rf args.last_log_index args.last_log_term
    cast now args rf recent

  forget_vote : Raft C → Bool → Option (Raft C)
  forget_vote rf true = some rf
  forget_vote rf false = persist (record rf { voted_for = minus_one })

  -- `now` is the clock.
  unfoldable pub request_vote : ℕ → RequestVoteArgs → Raft C → Option (Raft C × RequestVoteReply)
  unfolding forget_vote vote
  request_vote now args rf₀ = do
    (rf₁, res) ← msg_common args.term rf₀
    rf ← forget_vote rf₁ res
    if ltb args.term rf.term
        then some (rf, record { term = rf.term; vote_granted = false })
        else vote now args rf

module _ {C : Type 0} where
  -- The state that a message of term `t` meets once the term is checked.
  unfoldable pub in_term : ℕ → Raft C → Raft C
  unfolding joined
  in_term t rf = if ltb rf.term t then kept (record (joined t rf) { voted_for = minus_one }) else rf

-- ===== src/Raft/Election/Counted.antt =====
-- raft/fns.go: what the vote counter of an election holds when the election is won.
use pp.Prelude.{
  ℕ, suc, ◌+◌, ◌≤◌, ◌<◌, ◌/◌, ◌≡◌, refl, sym, ap, ◌∙◌, Bool, true, false, Option, some, List, [],
  ◌∷◌, length, if◌then◌else◌, ltb, ltb→lt, ◌||◌, >>=-eq-some, some-cancel, arith, Bool-cases, inl,
  inr,
}
use pp.Raft.State.{Raft, RequestVoteReply}
use pp.Raft.Persist.{msg_common}
use pp.Raft.Election.{
  VoteCounter, Outcome, lost, won, waiting, own_vote, count_if, count_vote, kill_vote, count_reply,
  poll, get_votes, wins, is_killed, is_follower,
}

-- A reply, with the server that it is from.
abbrev pub Answer : Type 0
Answer = ℕ × RequestVoteReply

-- The servers that granted their vote.
abbrev pub voters : List Answer → List ℕ
voters [] = []
voters ((j, r) ∷ answers) = if r.vote_granted then j ∷ voters answers else voters answers

-- The replies that the counter has seen, the last first. Between two of them the candidate's state may be any.
abbrev pub Counted : Type 0 → List Answer → VoteCounter → Type 0
Counted C [] vc = vc ≡ own_vote
Counted C ((j, r) ∷ answers) vc =
    (rf : Raft C) × (rf' : Raft C) × (vc₀ : VoteCounter) × (count_reply r rf vc₀ ≡ some (rf', vc))
    × Counted C answers vc₀

counted-votes :
    (res granted : Bool) (vc : VoteCounter)
    → (if res then count_if granted vc else kill_vote vc).votes
      ≤ vc.votes + (if granted then 1 else 0)
unfolding count_if count_vote kill_vote
counted-votes res granted vc = ground arith

wins-votes : (n : ℕ) (vc : VoteCounter) → wins n (get_votes vc) ≡ true → n / 2 < vc.votes
unfolding wins get_votes
wins-votes n vc h = elim (Bool-cases vc.killed) [
  | inl k ↦ let e : false ≡ true = sym (rw k refl) ∙ h in absurd cc
  | inr k ↦ let e : ltb (n / 2) vc.votes ≡ true = sym (rw k refl) ∙ h in ltb→lt (n / 2) vc.votes e
]

module _ {C : Type 0} where
  reply-votes :
      (r : RequestVoteReply) (rf rf' : Raft C) (vc vc' : VoteCounter)
      → count_reply r rf vc ≡ some (rf', vc')
      → vc'.votes ≤ vc.votes + (if r.vote_granted then 1 else 0)
  unfolding count_reply
  reply-votes r rf rf' vc vc' e =
      let f : Raft C × Bool → Option (Raft C × VoteCounter) =
        λ x. some (x.0, if x.1 then count_if r.vote_granted vc else kill_vote vc) in
      let (x, q, k) = >>=-eq-some (msg_common r.term rf) f e in
      let same = ap (λ (p : Raft C × VoteCounter). p.1.votes) (some-cancel k) in
      omega (arith, same, counted-votes x.1 r.vote_granted vc)

  pub poll-won :
      (vc : VoteCounter) (rf rf' : Raft C) → poll vc rf ≡ (rf', won) → rf.peers / 2 < vc.votes
  unfolding poll
  poll-won vc rf rf' e = elim (Bool-cases (is_killed (get_votes vc) || is_follower rf.st)) [
    | inl k ↦
        let e' : (rf, lost) ≡ (rf', won) = sym (rw k refl) ∙ e in
        let z : lost ≡ won = ap (λ (p : Raft C × Outcome). p.1) e' in absurd cc
    | inr k ↦ elim (Bool-cases (wins rf.peers (get_votes vc))) [
      | inl w ↦ wins-votes rf.peers vc w
      | inr w ↦
          let e' : (rf, waiting) ≡ (rf', won) = sym (rw (k, w) refl) ∙ e in
          let z : waiting ≡ won = ap (λ (p : Raft C × Outcome). p.1) e' in absurd cc
    ]
  ]

pub Counted-votes :
    (C : Type 0) (answers : List Answer) (vc : VoteCounter)
    → Counted C answers vc
    → vc.votes ≤ suc (length (voters answers))
unfolding own_vote count_vote
Counted-votes C [] vc e = omega (arith, ap (λ (v : VoteCounter). v.votes) e)
Counted-votes C ((j, r) ∷ answers) vc (rf, rf', vc₀, e, h) =
    let more = reply-votes r rf rf' vc₀ vc e in
    let old = Counted-votes C answers vc₀ h in ground (arith, more, old)

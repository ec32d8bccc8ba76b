-- ===== src/Raft/Election/Leaders.antt =====
-- raft/fns.go, raft/raft.go: over all the servers, no term has two leaders.
use pp.Prelude.{
  ℕ, ◌<◌, ◌/◌, ◌≡◌, refl, sym, ap, ◌∙◌, true, false, some, List, [], ◌∷◌, get_elem?, map, ◌==◌,
  arith, Bool-cases, inl, inr, subst,
}
use pp.Prelude.Int.{pos}
use pp.Raft.State.{Raft}
use pp.Raft.Sound.{IsSound, IsSaved}
use pp.Raft.Election.{VoteCounter, won, poll}
use pp.Raft.Election.Quorum.{count, is_in, Distinct, count-meets, length-count}
use pp.Raft.Election.Counted.{Answer, voters, Counted, Counted-votes, poll-won}
use pp.Raft.Step.{Run}
use pp.Raft.Step.Ballots.{Vote}
use pp.Raft.Step.Votes.{Run-one_vote}

-- A vote is among those that were given.
abbrev pub Gave : List Vote → ℕ → ℕ → Type 0
Gave given t c = (i : ℕ) × (get_elem? given i ≡ some (t, pos c))

-- Every reply that grants a vote in term `t` to candidate `c` is of a server that gave it.
abbrev pub Honest : (ℕ → List Vote) → ℕ → ℕ → List Answer → Type 0
Honest given t c [] = Unit
Honest given t c ((j, r) ∷ answers) =
    (r.vote_granted ≡ true → Gave (given j) t c) × Honest given t c answers

-- Candidate `c` won the election of term `t` among `n` servers: it voted for itself, counted the replies of other servers, one
-- of each at most, and then saw that it has enough.
pub record Won (C : Type 0) (n : ℕ) (given : ℕ → List Vote) (t c : ℕ) : Type 0 where
  pub answers : List Answer
  pub counter : VoteCounter
  pub before : Raft C
  pub after : Raft C
  pub peers : before.peers ≡ n
  pub once : Distinct n (c ∷ map (λ (a : Answer). a.0) answers)
  pub own : Gave (given c) t c
  pub honest : Honest given t c answers
  pub counted : Counted C answers counter
  pub looked : poll counter before ≡ (after, won)

voters-is_in :
    (i : ℕ) (answers : List Answer)
    → is_in i (map (λ (a : Answer). a.0) answers) ≡ false
    → is_in i (voters answers) ≡ false
voters-is_in i [] h = refl
voters-is_in i ((j, r) ∷ answers) h = elim (Bool-cases r.vote_granted) [
  | inl g ↦ rw g (ground (arith, h, voters-is_in i answers))
  | inr g ↦ rw g (ground (arith, h, voters-is_in i answers))
]

voters-Distinct :
    (n : ℕ) (answers : List Answer)
    → Distinct n (map (λ (a : Answer). a.0) answers)
    → Distinct n (voters answers)
voters-Distinct n [] h = tt
voters-Distinct n ((j, r) ∷ answers) (lt, new, h) = elim (Bool-cases r.vote_granted) [
  | inl g ↦ rw g (lt, voters-is_in j answers new, voters-Distinct n answers h)
  | inr g ↦ rw g (voters-Distinct n answers h)
]

voters-Gave :
    (given : ℕ → List Vote) (t c j : ℕ) (answers : List Answer)
    → Honest given t c answers
    → is_in j (voters answers) ≡ true
    → Gave (given j) t c
voters-Gave given t c j [] h e = absurd cc
voters-Gave given t c j ((k, r) ∷ answers) (g, h) e = elim (Bool-cases r.vote_granted) [
  | inl v ↦ elim (Bool-cases (k == j)) [
    | inl same ↦ let q : k ≡ j = ground arith in subst (λ m. Gave (given m) t c) q (g v)
    | inr other ↦ voters-Gave given t c j answers h (sym (rw (v, other) refl) ∙ e)
  ]
  | inr v ↦ voters-Gave given t c j answers h (sym (rw v refl) ∙ e)
]

-- The candidate and the servers that voted for it are more than half.
Won-majority :
    (C : Type 0) (n : ℕ) (given : ℕ → List Vote) (t c : ℕ)
    → (w : Won C n given t c) → n / 2 < count n (λ i. is_in i (c ∷ voters w.answers))
Won-majority C n given t c w =
    let (lt, new, h) = w.once in
    let d : Distinct n (c ∷ voters w.answers) =
      (lt, voters-is_in c w.answers new, voters-Distinct n w.answers h) in
    let many = poll-won w.counter w.before w.after w.looked in
    let half : w.before.peers / 2 ≡ n / 2 = ap (λ m. m / 2) w.peers in
    omega (
      arith,
      many,
      half,
      Counted-votes C w.answers w.counter w.counted,
      length-count n (c ∷ voters w.answers) d,
    )

Won-Gave :
    (C : Type 0) (n : ℕ) (given : ℕ → List Vote) (t c j : ℕ)
    → (w : Won C n given t c) → is_in j (c ∷ voters w.answers) ≡ true
    → Gave (given j) t c
Won-Gave C n given t c j w e = elim (Bool-cases (c == j)) [
  | inl same ↦ let q : c ≡ j = ground arith in subst (λ m. Gave (given m) t c) q w.own
  | inr other ↦ voters-Gave given t c j w.answers w.honest (sym (rw other refl) ∙ e)
]

-- Among any number of servers, each of which runs from a sound state whose disk is current, with crashes and
-- restarts between its steps, two candidates that won the election of one term, with replies that grant votes only as the
-- servers gave them, are the same.
pub one_leader :
    {C : Type 0} (n t a b : ℕ) (from to : ℕ → Raft C) (given : ℕ → List Vote)
    → ((j : ℕ) → j < n → IsSound (from j) × IsSaved (from j) × Run (from j) (given j) (to j))
    → Won C n given t a
    → Won C n given t b
    → a ≡ b
one_leader {C} n t a b from to given runs wa wb =
    let (j, lt, p, q) =
      count-meets n (λ i. is_in i (a ∷ voters wa.answers)) (λ i. is_in i (b ∷ voters wb.answers))
        (omega (arith, Won-majority C n given t a wa, Won-majority C n given t b wb)) in
    let (i, va) = Won-Gave C n given t a j wa p in
    let (k, vb) = Won-Gave C n given t b j wb q in
    let (sound, saved, run) = runs j lt in
    let e : pos a ≡ pos b = Run-one_vote i k t (pos a) (pos b) sound saved run va vb in cc

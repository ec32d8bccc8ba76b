-- ===== src/Kvraft/Client/Reached.antt =====
-- kvraft/client.go: an answer comes.
use pp.Prelude.{
  ℕ, zero, suc, ◌-◌, refl, ◌≤◌, ◌<◌, ◌≡◌, ◌≢◌, sym, ap, ◌∙◌, none, some, List, [], ◌∷◌, get_elem?,
  length, get_elem?-length, Option-cases, inl, inr, arith, Returns,
}
use pp.Text.{Bytes}
use pp.Kvraft.State.{OpCode}
use pp.Kvraft.Client.{Clerk, Round, do_request}
use pp.Kvraft.Client.Cycle.{nth_server-reaches, IsTurn, nth_server-IsTurn}
use pp.Kvraft.Client.Line.{heard_of}
use pp.Kvraft.Client.Outcome.{answer_of, ends, first_answer, tries}
use pp.Kvraft.Client.Answered.{do_request-Requested}

module _ {C : Type 0} where
  -- In every round its call comes back.
  abbrev pub AllReturn : List (Round C) → Type 0
  AllReturn rounds = (i : ℕ) (r : Round C) → get_elem? rounds i ≡ some r → 0 < r.returned

  -- What is heard then is the event of the round.
  heard_all : (r : Round C) → 0 < r.returned → ends 0 r ≡ r.event
  heard_all r h =
      let none_out : 1 - r.returned ≡ 0 = omega (arith, h) in ap (λ k. heard_of k r.event) none_out

  -- A round that is final ends the request.
  final-tries :
      (rounds : List (Round C)) (i : ℕ) (r : Round C)
      → AllReturn rounds
      → get_elem? rounds i ≡ some r
      → answer_of r.event ≢ none
      → (first_answer 0 rounds ≢ none) × (tries 0 rounds ≤ suc i)
  final-tries [] i r back at final = absurd cc
  final-tries (x ∷ rounds) zero r back at final = elim (Option-cases (answer_of (ends 0 x))) [
    | inl e ↦
        let same : x ≡ r = cc in
        let here = ap answer_of (sym (heard_all x (back 0 x refl))) in
        absurd (final (ap (λ y. answer_of y.event) (sym same) ∙ here ∙ e))
    | inr (w, e) ↦ rw e (λ z. absurd cc, omega arith)
  ]
  final-tries (x ∷ rounds) (suc i) r back at final = elim (Option-cases (answer_of (ends 0 x))) [
    | inl e ↦
        let returned = back 0 x refl in
        let none_out : 1 - x.returned ≡ 0 = omega (arith, returned) in
        let (n, le) = final-tries rounds i r (λ j. back (suc j)) at final in
        rw (e, none_out) (n, omega (arith, le))
    | inr (w, e) ↦ rw e (λ z. absurd cc, omega arith)
  ]

  -- If every call comes back in its round, so that no server hangs, and the server `k` gives a final reply within a second whenever
  -- its turn is, a request of a clerk whose first server is in its list, over at least as many rounds as there are
  -- servers, has its answer after at most as many tries as there are servers.
  pub do_request-answers :
      (op : OpCode) (key v : Bytes) (seq : ℕ) (ck : Clerk C) (rounds : List (Round C)) (k : ℕ)
      → ck.last_ldr < length ck.servers
      → k < length ck.servers
      → length ck.servers ≤ length rounds
      → AllReturn rounds
      → ((i : ℕ) (r : Round C)
          → get_elem? rounds i ≡ some r
          → IsTurn (length ck.servers) ck.last_ldr i k
          → answer_of r.event ≢ none)
      → Returns
          (do_request op key v seq ck rounds)
          (λ run. (run.answer ≢ none) × (length run.sent ≤ length ck.servers))
  do_request-answers op key v seq ck rounds k h low enough back final =
      let n = length ck.servers in
      let (i, small, at) = nth_server-reaches n ck.last_ldr k h low in
      let (r, e) = get_elem?-length rounds i (omega (arith, small, enough)) in
      let turn : IsTurn n ck.last_ldr i k = rw (← at) (nth_server-IsTurn n ck.last_ldr i h) in
      let (some_answer, few) = final-tries rounds i r back e (final i r e turn) in
      let (run, g, q) = do_request-Requested op key v seq ck rounds h in
      let sent = q.bounded in
      (run, g, (λ z. some_answer (sym q.answered ∙ z), omega (arith, sent, few, small)))

-- ===== src/Kvraft/Client/Outcome.antt =====
-- kvraft/client.go: what the rounds of a request come to.
use pp.Prelude.{
  ℕ, suc, ◌-◌, ◌<◌, ◌≡◌, refl, Option, none, some, List, [], ◌∷◌, length, length-set, ◌⊎◌, inl, inr,
  arith,
}
use pp.Text.{Bytes}
use pp.Kvraft.State.{Err, RequestArgs, ok, no_key, wrong_leader, lock_held, lock_not_held, timeout}
use pp.Kvraft.Client.{
  Event, failed, timed_out, replied, Round, Answer, value, not_held, done, retry, after_event,
  redialled,
}
use pp.Kvraft.Client.Line.{heard_of}

-- A reply that is final, and its answer.
abbrev pub final_reply : Err → Bytes → Option Answer
final_reply ok v = some (value v)
final_reply no_key v = some (value v)
final_reply wrong_leader v = none
final_reply lock_held v = none
final_reply lock_not_held v = some not_held
final_reply timeout v = none

-- The answer of a round, or of the rounds after it.
abbrev pub or_later : Option Answer → Option Answer → Option Answer
or_later none later = later
or_later (some w) later = some w

abbrev pub one_or : Option Answer → ℕ → ℕ
one_or none later = suc later
one_or (some w) later = 1

-- Two requests for the same operation of the same client.
pub record SameRequest (a b : RequestArgs) : Type 0 where
  pub client_id : b.client_id ≡ a.client_id
  pub code : b.code ≡ a.code
  pub key : b.key ≡ a.key

pub same : (a : RequestArgs) → SameRequest a a
same a = record { client_id = refl; code = refl; key = refl }

pub one_or-pos : (o : Option Answer) (k : ℕ) → 0 < one_or o k
one_or-pos none k = omega arith
one_or-pos (some w) k = omega arith

module _ {C : Type 0} where
  abbrev pub answer_of : Event C → Option Answer
  answer_of (failed c) = none
  answer_of timed_out = none
  answer_of (replied e v) = final_reply e v

  -- How a round ends where `h` calls are out before it, and one more is started: an answer is heard only when all have come back.
  abbrev pub ends : ℕ → Round C → Event C
  ends h r = heard_of (suc h - r.returned) r.event

  -- The first final answer, and the number of rounds up to it.
  abbrev pub first_answer : ℕ → List (Round C) → Option Answer
  first_answer h [] = none
  first_answer h (r ∷ rounds) =
      or_later (answer_of (ends h r)) (first_answer (suc h - r.returned) rounds)

  abbrev pub tries : ℕ → List (Round C) → ℕ
  tries h [] = 0
  tries h (r ∷ rounds) = one_or (answer_of (ends h r)) (tries (suc h - r.returned) rounds)

  -- The number and the value are the same as well, unless the lock was held by another client.
  abbrev pub LockHeld : Event C → Type 0
  LockHeld e = (v : Bytes) × (e ≡ replied lock_held v)

  unfoldable pub Decided : RequestArgs → Round C → Event C → Type 0
  Decided a r e =
      ((w : Answer) × (after_event a r e ≡ done w) × (answer_of e ≡ some w))
      ⊎ ((a' : RequestArgs) × (after_event a r e ≡ retry a')
          × (answer_of e ≡ none)
          × SameRequest a a'
          × ((a' ≡ a) ⊎ LockHeld e))

  pub decided : (a : RequestArgs) (r : Round C) (e : Event C) → Decided a r e
  unfolding Decided
  decided a r (failed c) = inr (a, refl, refl, same a, inl refl)
  decided a r timed_out = inr (a, refl, refl, same a, inl refl)
  decided a r (replied ok v) = inl (value v, refl, refl)
  decided a r (replied no_key v) = inl (value v, refl, refl)
  decided a r (replied wrong_leader v) = inr (a, refl, refl, same a, inl refl)
  decided a r (replied lock_held v) =
      inr (_, refl, refl, record { client_id = refl; code = refl; key = refl }, inr (v, refl))
  decided a r (replied lock_not_held v) = inl (not_held, refl, refl)
  decided a r (replied timeout v) = inr (a, refl, refl, same a, inl refl)

  pub length-redialled :
      (l : ℕ) (e : Event C) (servers : List C) → length (redialled l e servers) ≡ length servers
  length-redialled l (failed none) servers = refl
  length-redialled l (failed (some c)) servers = length-set servers l c
  length-redialled l timed_out servers = refl
  length-redialled l (replied e v) servers = refl

-- ===== src/Kvraft/Client/Retried.antt =====
-- kvraft/client.go: a retry sends the same request.
use pp.Prelude.{
  ℕ, zero, suc, ◌<◌, ◌≡◌, refl, sym, ap, ◌∙◌, some, List, [], ◌∷◌, get_elem?, length, map, ◌++◌,
  get_elem?-length, inl, inr, arith, Returns,
}
use pp.Text.{Bytes}
use pp.Kvraft.State.{OpCode, RequestArgs}
use pp.Kvraft.Client.{
  Clerk, Event, Round, heard, still, started, redialled, next_server, finished, request_from,
  do_request,
}
use pp.Kvraft.Client.Cycle.{next_server-lt}
use pp.Kvraft.Client.Outcome.{LockHeld, Decided, decided, length-redialled}
use pp.Kvraft.Client.Answered.{request_of}

-- Every request of the list is `a`.
abbrev pub AllThe : RequestArgs → List (ℕ × RequestArgs) → Type 0
AllThe a sent = (i : ℕ) (q : ℕ × RequestArgs) → get_elem? sent i ≡ some q → q.1 ≡ a

AllThe-calls :
    (a : RequestArgs) (calls : List ℕ) (sent : List (ℕ × RequestArgs))
    → AllThe a sent
    → AllThe a (map (λ x. (x, a)) calls ++ sent)
AllThe-calls a [] sent all i q h = all i q h
AllThe-calls a (l ∷ calls) sent all zero q h = let e : (l, a) ≡ q = cc in ap (λ x. x.1) (sym e)
AllThe-calls a (l ∷ calls) sent all (suc i) q h = AllThe-calls a calls sent all i q h

AllThe-last : (a : RequestArgs) (calls : List ℕ) → AllThe a (map (λ x. (x, a)) calls)
AllThe-last a [] i q h = absurd cc
AllThe-last a (l ∷ calls) zero q h = let e : (l, a) ≡ q = cc in ap (λ x. x.1) (sym e)
AllThe-last a (l ∷ calls) (suc i) q h = AllThe-last a calls i q h

module _ {C : Type 0} where
  -- No reply says that the lock is held.
  abbrev pub NoLockHeld : List (Round C) → Type 0
  NoLockHeld [] = Unit {0}
  NoLockHeld (r ∷ rounds) = (LockHeld r.event → ⊥) × NoLockHeld rounds

  LockHeld-heard : (line : List ℕ) (e : Event C) → LockHeld (heard line e) → LockHeld e
  LockHeld-heard [] e h = h
  LockHeld-heard (x ∷ line) e h = let z = h.1 in absurd cc

  request_from-AllThe :
      (n l : ℕ) (line : List ℕ) (a : RequestArgs) (ck : Clerk C) (rounds : List (Round C))
      → NoLockHeld rounds
      → l < n
      → length ck.servers ≡ n
      → Returns (request_from n l line a ck rounds) (λ run. AllThe a run.sent)
  unfolding request_from Decided
  request_from-AllThe n l line a ck [] no_lock h sz = (_, refl, λ i q e. absurd cc)
  request_from-AllThe n l line a ck (r ∷ rounds) no_lock h sz =
      let (c, at) = get_elem?-length ck.servers l (omega (arith, h, sz)) in
      let line' = still line l r.returned in
      let heard_ = heard line' r.event in
      let calls = started line l r.returned in
      let ck' : Clerk C = record ck { servers = redialled l heard_ ck.servers } in
      elim (decided a r heard_) [
        | inl (w, e, f) ↦ (
          record { clerk = finished l w ck'; sent = map (λ x. (x, a)) calls; answer = some w },
          rw (at, e) refl,
          AllThe-last a calls,
        )
        | inr (a', e, f, s, inr held) ↦ absurd (no_lock.0 (LockHeld-heard line' r.event held))
        | inr (a', e, f, s, inl same) ↦
            let (run, g, q) =
              request_from-AllThe n (next_server n l) line' a' ck' rounds no_lock.1
                (next_server-lt n l h) (length-redialled l heard_ ck.servers ∙ sz) in
            (
              record run { sent = map (λ x. (x, a)) calls ++ run.sent },
              rw (at, e, g) refl,
              AllThe-calls a calls run.sent (λ i p g'. q i p g' ∙ same),
            )
      ]

  -- A request of a clerk whose first server is in its list, where no reply says that the lock is held by
  -- another client, is sent with one number and one value in all its tries.
  pub do_request-AllThe :
      (op : OpCode) (key v : Bytes) (seq : ℕ) (ck : Clerk C) (rounds : List (Round C))
      → ck.last_ldr < length ck.servers
      → NoLockHeld rounds
      → Returns
          (do_request op key v seq ck rounds)
          (λ run. AllThe (request_of op key v seq ck) run.sent)
  unfolding do_request
  do_request-AllThe op key v seq ck rounds h no_lock =
      request_from-AllThe (length ck.servers) ck.last_ldr [] (request_of op key v seq ck) ck rounds
        no_lock h refl

-- ===== src/Kvraft/Client/Rounds.antt =====
-- kvraft/client.go: the rounds of the loop, from any server and with any calls out.
use pp.Prelude.{
  ℕ, zero, suc, ◌+◌, ◌-◌, ◌≤◌, ◌<◌, ◌≡◌, ◌≢◌, refl, sym, ap, ◌∙◌, none, some, List, [], ◌∷◌, ◌++◌,
  map, get_elem?, length, length-map, length-append, get_elem?-length, inl, inr, arith, Returns,
  subst,
}
use pp.Text.{Bytes}
use pp.Kvraft.State.{RequestArgs}
use pp.Kvraft.Client.{
  Clerk, Event, Round, Answer, value, not_held, Run, redialled, next_server, finished, heard, still,
  started, request_from,
}
use pp.Kvraft.Client.Cycle.{nth_server, next_server-lt}
use pp.Kvraft.Client.Line.{Follow, unsent, round-Left, length-still, heard-still}
use pp.Kvraft.Client.Outcome.{
  SameRequest, same, one_or, or_later, one_or-pos, answer_of, ends, first_answer, tries, Decided,
  decided, length-redialled,
}

-- The requests of a run, the first one in front.
abbrev pub Ordered : ℕ → ℕ → RequestArgs → List (ℕ × RequestArgs) → Type 0
Ordered n l a sent =
    (i : ℕ) (q : ℕ × RequestArgs)
    → get_elem? sent i ≡ some q
    → (q.0 ≡ nth_server n l i) × SameRequest a q.1

abbrev with_args : RequestArgs → List ℕ → List (ℕ × RequestArgs)
with_args a calls = map (λ x. (x, a)) calls

length-with_args : (a : RequestArgs) (calls : List ℕ) → length (with_args a calls) ≡ length calls
length-with_args a calls = length-map {B = ℕ × RequestArgs} calls (λ x. (x, a))

-- The calls of a round, and what is sent after it.
calls-Ordered :
    (n f first : ℕ) (a a' : RequestArgs) (calls : List ℕ) (sent : List (ℕ × RequestArgs))
    → SameRequest a a'
    → Follow n f (calls ++ first ∷ [])
    → Ordered n first a' sent
    → Ordered n f a (with_args a calls ++ sent)
calls-Ordered n f first a a' [] sent s h o i q e =
    let (at, t) = o i q e in
    (
      at ∙ ap (λ x. nth_server n x i) h.0,
      record { client_id = t.client_id ∙ s.client_id; code = t.code ∙ s.code; key = t.key ∙ s.key },
    )
calls-Ordered n f first a a' (x ∷ calls) sent s h o zero q e =
    let p : (x, a) ≡ q = cc in
    (ap (λ y. y.0) (sym p) ∙ h.0, subst (λ y. SameRequest a y.1) p (same a))
calls-Ordered n f first a a' (x ∷ calls) sent s h o (suc i) q e =
    calls-Ordered n (next_server n f) first a a' calls sent s h.1 o i q e

-- The calls of the last round, and nothing after it.
last-Ordered :
    (n f first : ℕ) (a : RequestArgs) (calls : List ℕ)
    → Follow n f (calls ++ first ∷ [])
    → Ordered n f a (with_args a calls)
last-Ordered n f first a [] h i q e = absurd cc
last-Ordered n f first a (x ∷ calls) h zero q e =
    let p : (x, a) ≡ q = cc in
    (ap (λ y. y.0) (sym p) ∙ h.0, subst (λ y. SameRequest a y.1) p (same a))
last-Ordered n f first a (x ∷ calls) h (suc i) q e =
    last-Ordered n (next_server n f) first a calls h.1 i q e

some_unsent : (line : List ℕ) (l : ℕ) → 1 ≤ length (unsent line l) + 0
some_unsent [] l = omega arith
some_unsent (x ∷ line) l = let e = length-append line (l ∷ []) in omega (arith, e)

module _ {C : Type 0} where
  -- What a run of the loop from server `l` on comes to, with request `a`, where `h` calls are out, `u` calls with that of `l`
  -- are to be made, and the first of these is for server `f`.
  pub record RunFrom (n f u l h : ℕ) (a : RequestArgs) (ck : Clerk C) (rounds : List (Round C))
      (run : Run C) : Type 0 where
    pub size : length run.clerk.servers ≡ length ck.servers
    pub answered : run.answer ≡ first_answer h rounds
    pub bounded : suc (length run.sent) ≤ u + tries h rounds
    pub count : first_answer h rounds ≢ none → suc (length run.sent) ≡ u + tries h rounds
    pub leader :
        (v : Bytes)
        → first_answer h rounds ≡ some (value v)
        → run.clerk.last_ldr ≡ nth_server n l (tries h rounds - 1)
    pub kept :
        ((v : Bytes) → first_answer h rounds ≢ some (value v)) → run.clerk.last_ldr ≡ ck.last_ldr
    pub order : Ordered n f a run.sent

  finished-size : (l : ℕ) (w : Answer) (ck : Clerk C) → (finished l w ck).servers ≡ ck.servers
  finished-size l (value v) ck = refl
  finished-size l not_held ck = refl

  finished-kept :
      (l : ℕ) (w : Answer) (ck : Clerk C)
      → ((v : Bytes) → some w ≢ some (value v))
      → (finished l w ck).last_ldr ≡ ck.last_ldr
  finished-kept l (value v) ck h = absurd (h v refl)
  finished-kept l not_held ck h = refl

  finished-leader :
      (l : ℕ) (w : Answer) (ck : Clerk C) (v : Bytes)
      → some w ≡ some (value v)
      → (finished l w ck).last_ldr ≡ l
  finished-leader l (value v) ck v' h = refl
  finished-leader l not_held ck v' h = absurd cc

  RunFrom-done :
      (n f u l h first : ℕ) (a : RequestArgs) (ck ck' : Clerk C) (r : Round C)
      (rounds : List (Round C)) (w : Answer) (calls : List ℕ)
      → answer_of (ends h r) ≡ some w
      → length ck'.servers ≡ length ck.servers
      → ck'.last_ldr ≡ ck.last_ldr
      → Follow n f (calls ++ first ∷ [])
      → length calls ≡ u
      → RunFrom n f u l h a ck
          (r ∷ rounds)
          (record { clerk = finished l w ck'; sent = with_args a calls; answer = some w })
  RunFrom-done n f u l h first a ck ck' r rounds w calls e sz ld follow all =
      let len = length-with_args a calls in
      let many : suc (length (with_args a calls)) ≡ u + 1 = omega (arith, len, all) in
      record {
        size = ap length (finished-size l w ck') ∙ sz;
        answered = rw e refl;
        bounded = rw e (omega (arith, many));
        count = λ z. rw e many;
        leader = rw e (λ v z. finished-leader l w ck' v z);
        kept = rw e (λ z. finished-kept l w ck' z ∙ ld);
        order = last-Ordered n f first a calls follow;
      }

  tries-pos :
      (h : ℕ) (rounds : List (Round C)) (w : Answer)
      → first_answer h rounds ≡ some w
      → 0 < tries h rounds
  tries-pos h [] w e = absurd cc
  tries-pos h (r ∷ rounds) w e =
      one_or-pos (answer_of (ends h r)) (tries (suc h - r.returned) rounds)

  RunFrom-later :
      (n f u u' l h first : ℕ) (a a' : RequestArgs) (ck ck' : Clerk C) (r : Round C)
      (rounds : List (Round C)) (calls : List ℕ) (run : Run C)
      → answer_of (ends h r) ≡ none
      → length ck'.servers ≡ length ck.servers
      → ck'.last_ldr ≡ ck.last_ldr
      → SameRequest a a'
      → Follow n f (calls ++ first ∷ [])
      → length calls + u' ≡ suc u
      → RunFrom n first u' (next_server n l) (suc h - r.returned) a' ck' rounds run
      → RunFrom n f u l h a ck (r ∷ rounds) (record run { sent = with_args a calls ++ run.sent })
  RunFrom-later n f u u' l h first a a' ck ck' r rounds calls run e sz ld s follow all later =
      let h' = suc h - r.returned in
      let fa : first_answer h (r ∷ rounds) ≡ first_answer h' rounds =
        ap (λ x. or_later x (first_answer h' rounds)) e in
      let t : tries h (r ∷ rounds) ≡ suc (tries h' rounds) =
        ap (λ x. one_or x (tries h' rounds)) e in
      let len = length-append (with_args a calls) run.sent in
      let len' = length-with_args a calls in
      let few = later.bounded in
      record {
        size = later.size ∙ sz;
        answered = later.answered ∙ sym fa;
        bounded = omega (arith, t, len, len', few, all);
        count = λ z. let c = later.count (λ y. z (fa ∙ y)) in omega (arith, t, len, len', c, all);
        leader = λ v z.
            let g = sym fa ∙ z in
            let p = tries-pos h' rounds (value v) g in
            let e' : tries h (r ∷ rounds) - 1 ≡ suc (tries h' rounds - 1) = omega (arith, t, p) in
            later.leader v g ∙ sym (ap (nth_server n l) e');
        kept = λ z. later.kept (λ v g. z v (fa ∙ g)) ∙ ld;
        order = calls-Ordered n f first a a' calls run.sent s follow later.order;
      }

  -- A final answer is heard only when no call is out.
  none_out :
      (line : List ℕ) (e : Event C) (w : Answer)
      → answer_of (heard line e) ≡ some w
      → (m : ℕ) → length (unsent line m) ≡ 1
  none_out [] e w h m = refl
  none_out (x ∷ line) e w h m = absurd cc

  pub request_from-RunFrom :
      (n f l : ℕ) (line : List ℕ) (a : RequestArgs) (ck : Clerk C) (rounds : List (Round C))
      → l < n
      → length ck.servers ≡ n
      → Follow n f (unsent line l)
      → Returns
          (request_from n l line a ck rounds)
          (RunFrom n f (length (unsent line l)) l (length line) a ck rounds)
  unfolding request_from Decided
  request_from-RunFrom n f l line a ck [] h sz follow = (
    _,
    refl,
    record {
      size = refl;
      answered = refl;
      bounded = some_unsent line l;
      count = λ z. absurd (z refl);
      leader = λ v e. absurd cc;
      kept = λ e. refl;
      order = λ i q e. absurd cc;
    },
  )
  request_from-RunFrom n f l line a ck (r ∷ rounds) h sz follow =
      let (c, at) = get_elem?-length ck.servers l (omega (arith, h, sz)) in
      let line' = still line l r.returned in
      let e = heard line' r.event in
      let ck' : Clerk C = record ck { servers = redialled l e ck.servers } in
      let sz' = length-redialled l e ck.servers in
      let left = round-Left n f l r.returned line follow in
      let total = left.count in
      let out : answer_of (ends (length line) r) ≡ answer_of e =
        ap answer_of (sym (heard-still l r.returned line r.event)) in
      elim (decided a r e) [
        | inl (w, d, g) ↦
            let none = none_out line' r.event w g (next_server n l) in
            (
              _,
              rw (at, d) refl,
              RunFrom-done n f (length (unsent line l)) l (length line) left.first a ck ck' r rounds
                  w (started line l r.returned) (out ∙ g) sz' refl left.now
                  (omega (arith, none, total)),
            )
        | inr (a', d, g, s, held) ↦
            let (run, made, q) =
              request_from-RunFrom n left.first (next_server n l) line' a' ck' rounds
                (next_server-lt n l h) (sz' ∙ sz) left.later in
            let q' =
              subst
                (λ k.
                  RunFrom n left.first (length (unsent line' (next_server n l))) (next_server n l) k
                    a' ck' rounds run)
                (length-still l r.returned line) q in
            (
              _,
              rw (at, d, made) refl,
              RunFrom-later n f (length (unsent line l)) (length (unsent line' (next_server n l))) l
                  (length line) left.first a a' ck ck' r rounds (started line l r.returned) run
                  (out ∙ g) sz' refl s left.now total q',
            )
      ]

-- ===== src/Kvraft/Broadcast/Subscribers.antt =====
-- kvraft/bcast.go: the subscribers are numbered without repetition, and each gets each message.
use pp.Prelude.{
  ℕ, zero, suc, ◌+◌, ◌-◌, ◌%◌, ◌<◌, ◌≡◌, ◌≢◌, refl, sym, ap, ap₂, ◌∙◌, Bool, true, false, none,
  some, List, [], ◌∷◌, map, length, get_elem?, ◌==◌, ==_refl, if◌then◌else◌, Bool-cases,
  Option-cases, ◌⊎◌, inl, inr, arith, Returns,
}
use pp.Text.Decimal.{two64}
use pp.Kvraft.Broadcast.{Bcast, lookup, first_free, sub, delete, unsub, send_all, publish}

alive_all :
    (killed : ℕ → Bool) (n : ℕ)
    → killed 0 ≡ false
    → ((k : ℕ) → k < n → killed (suc k) ≡ false)
    → (k : ℕ) → k < suc n
    → killed k ≡ false
alive_all killed n h later zero low = h
alive_all killed n h later (suc k) low = later k (omega (arith, low))

module _ {C : Type 0} where
  -- No number has two channels.
  abbrev pub Numbered : List (ℕ × C) → Type 0
  Numbered [] = Unit {0}
  Numbered ((i, c) ∷ net) = (lookup i net ≡ none) × Numbered net

  -- The numbers are different, and as many as the counter says.
  pub record IsValid (b : Bcast C) : Type 0 where
    pub numbered : Numbered b.net
    pub counted : b.nsub ≡ length b.net % two64

  lookup-delete_ne :
      (id j : ℕ) (net : List (ℕ × C)) → j ≢ id → lookup j (delete id net) ≡ lookup j net
  lookup-delete_ne id j [] h = refl
  lookup-delete_ne id j ((i, c) ∷ net) h = elim (Bool-cases (i == id)) [
    | inl t ↦ let e : (i == j) ≡ false = ground arith in rw (t, e) (lookup-delete_ne id j net h)
    | inr t ↦ rw t (ap (λ x. if i == j then some c else x) (lookup-delete_ne id j net h))
  ]

  delete-none : (id : ℕ) (net : List (ℕ × C)) → lookup id net ≡ none → delete id net ≡ net
  delete-none id [] h = refl
  delete-none id ((i, c) ∷ net) h = elim (Bool-cases (i == id)) [
    | inl t ↦ let e : some c ≡ none = sym (rw t refl) ∙ h in absurd cc
    | inr t ↦ rw t (ap (λ l. (i, c) ∷ l) (delete-none id net (sym (rw t refl) ∙ h)))
  ]

  free-none :
      (net : List (ℕ × C)) (ids : List ℕ) (id : ℕ)
      → first_free net ids ≡ some id
      → lookup id net ≡ none
  free-none net [] id h = absurd cc
  free-none net (i ∷ ids) id h = elim (Option-cases (lookup i net)) [
    | inl e ↦
        let f : some i ≡ some id = sym (rw e refl) ∙ h in
        let same : i ≡ id = cc in ap (λ k. lookup k net) (sym same) ∙ e
    | inr (c, e) ↦ free-none net ids id (sym (rw e refl) ∙ h)
  ]

  -- A number in the list that is not taken ends the search.
  free-some :
      (net : List (ℕ × C)) (ids : List ℕ) (i id : ℕ)
      → get_elem? ids i ≡ some id
      → lookup id net ≡ none
      → (found : ℕ) × (first_free net ids ≡ some found)
  free-some net [] i id at h = absurd cc
  free-some net (x ∷ ids) zero id at h =
      let same : x ≡ id = cc in (x, rw (ap (λ k. lookup k net) same ∙ h) refl)
  free-some net (x ∷ ids) (suc i) id at h = elim (Option-cases (lookup x net)) [
    | inl e ↦ (x, rw e refl)
    | inr (c, e) ↦ let (found, f) = free-some net ids i id at h in (found, rw e f)
  ]

  -- What a subscription with channel `c` gives: the state and the number.
  pub record Subscribed (c : C) (b : Bcast C) (r : Bcast C × ℕ) : Type 0 where
    pub valid : IsValid r.0
    pub new : lookup r.1 b.net ≡ none
    pub there : lookup r.1 r.0.net ≡ some c
    pub others : (j : ℕ) → j ≢ r.1 → lookup j r.0.net ≡ lookup j b.net
    -- The end of the subscription closes the channel and leaves the state of before.
    pub back : unsub r.1 r.0 ≡ some (b, c)

  -- On valid subscriptions, fewer than `2 ^ 64`, with a random number among those at hand that is not
  -- taken, `sub` returns a new number for the channel and keeps the subscriptions valid and the others as they
  -- were; `unsub` of the number then closes the channel and gives the old state back.
  pub sub-Subscribed :
      (b : Bcast C) (ids : List ℕ) (i id : ℕ) (c : C)
      → IsValid b
      → length b.net < two64
      → get_elem? ids i ≡ some id
      → lookup id b.net ≡ none
      → Returns (sub ids c b) (Subscribed c b)
  unfolding sub unsub
  sub-Subscribed b ids i id c valid small at h =
      let (k, e) = free-some b.net ids i id at h in
      let new = free-none b.net ids k e in
      let n : ((b.nsub + 1) % two64 + (two64 - 1)) % two64 ≡ b.nsub =
        omega (arith, valid.counted, small) in
      (
        (record { net = (k, c) ∷ b.net; nsub = (b.nsub + 1) % two64 }, k),
        rw e refl,
        record {
          valid = record {
            numbered = (new, valid.numbered);
            counted = omega (arith, valid.counted, small);
          };
          new = new;
          there = rw (==_refl k) refl;
          others = λ j ne. let away : (k == j) ≡ false = ground arith in rw away refl;
          back =
              rw (==_refl k)
                (ap₂ (λ x m. some (record { net = x; nsub = m }, c)) (delete-none k b.net new) n);
        },
      )

  delete-Numbered : (id : ℕ) (net : List (ℕ × C)) → Numbered net → Numbered (delete id net)
  delete-Numbered id [] h = h
  delete-Numbered id ((i, c) ∷ net) (new, h) = elim (Bool-cases (i == id)) [
    | inl t ↦ rw t (delete-Numbered id net h)
    | inr t ↦
        let ne : i ≢ id = ground arith in
        rw t (lookup-delete_ne id i net ne ∙ new, delete-Numbered id net h)
  ]

  length-delete :
      (id : ℕ) (net : List (ℕ × C)) (c : C)
      → Numbered net
      → lookup id net ≡ some c
      → suc (length (delete id net)) ≡ length net
  length-delete id [] c v h = absurd cc
  length-delete id ((i, d) ∷ net) c (new, v) h = elim (Bool-cases (i == id)) [
    | inl t ↦
        let same : i ≡ id = ground arith in
        rw t
          (ap (λ l. suc (length l)) (delete-none id net (ap (λ k. lookup k net) (sym same) ∙ new)))
    | inr t ↦ rw t (ap suc (length-delete id net c v (sym (rw t refl) ∙ h)))
  ]

  lookup-delete : (id : ℕ) (net : List (ℕ × C)) → Numbered net → lookup id (delete id net) ≡ none
  lookup-delete id [] v = refl
  lookup-delete id ((i, c) ∷ net) (new, v) = elim (Bool-cases (i == id)) [
    | inl t ↦ rw t (lookup-delete id net v)
    | inr t ↦ rw t (rw t (lookup-delete id net v))
  ]

  -- On valid subscriptions, `unsub` of a number that is there gives its channel, takes the number and nothing else out of
  -- the table, and leaves valid subscriptions, one less; of a number that is not there it is a panic.
  pub unsub-IsValid :
      (b : Bcast C) (id : ℕ)
      → IsValid b
      → ((lookup id b.net ≡ none) × (unsub id b ≡ none))
        ⊎ ((c : C) × (lookup id b.net ≡ some c)
            × Returns (unsub id b) (λ r.
              IsValid r.0
              × (r.1 ≡ c)
              × (lookup id r.0.net ≡ none)
              × (suc (length r.0.net) ≡ length b.net)
              × ((j : ℕ) → j ≢ id → lookup j r.0.net ≡ lookup j b.net)))
  unfolding unsub
  unsub-IsValid b id valid = elim (Option-cases (lookup id b.net)) [
    | inl e ↦ inl (e, rw e refl)
    | inr (c, e) ↦
        let len = length-delete id b.net c valid.numbered e in
        let b' : Bcast C = record {
          net = delete id b.net;
          nsub = (b.nsub + (two64 - 1)) % two64;
        } in
        let valid' : IsValid b' = record {
          numbered = delete-Numbered id b.net valid.numbered;
          counted = omega (arith, valid.counted, len);
        } in
        inr (
          c,
          e,
          (
            (b', c),
            rw e refl,
            (
              valid',
              refl,
              lookup-delete id b.net valid.numbered,
              len,
              λ j ne. lookup-delete_ne id j b.net ne,
            ),
          ),
        )
  ]

  -- What `killed` says for the subscribers, and what is sent to them.
  abbrev Waits : (ℕ → Bool) → List (ℕ × C) → Type 0
  Waits killed net =
      (((k : ℕ) → k < length net → killed k ≡ false)
        × (send_all killed net ≡ map (λ x. x.1) net)
        × (length net ≡ length (send_all killed net)))
      ⊎ ((k : ℕ) × (k < length net)
          × (killed k ≡ true)
          × (length (send_all killed net) < length net))

  send_all-Waits : (killed : ℕ → Bool) (net : List (ℕ × C)) → Waits killed net
  send_all-Waits killed [] = inl ((λ k h. absurd (omega (arith, h))), refl, refl)
  send_all-Waits killed ((i, c) ∷ net) = elim (Bool-cases (killed 0)) [
    | inl t ↦ inr (0, omega arith, t, rw t (omega arith))
    | inr t ↦ elim (send_all-Waits (λ k. killed (suc k)) net) [
      | inl (alive, all, len) ↦ inl (
        (λ k h. alive_all killed (length net) t alive k h),
        rw t (ap (λ l. c ∷ l) all),
        rw t (ap suc len),
      )
      | inr (k, h, dead, few) ↦ inr (suc k, omega (arith, h), dead, rw t (omega (arith, few)))
    ]
  ]

  -- If the server is not killed meanwhile, `pub` sends the message once to each subscriber, and waits for as many
  -- acknowledgements; if it is, `pub` waits for more than the messages that it sent.
  pub publish-Waits :
      (killed : ℕ → Bool) (b : Bcast C)
      → (((k : ℕ) → k < length b.net → killed k ≡ false)
          × ((publish killed b).sent ≡ map (λ x. x.1) b.net)
          × ((publish killed b).awaited ≡ length (publish killed b).sent))
        ⊎ ((k : ℕ) × (k < length b.net)
            × (killed k ≡ true)
            × (length (publish killed b).sent < (publish killed b).awaited))
  unfolding publish
  publish-Waits killed b = send_all-Waits killed b.net

-- ===== src/Balloc/Released.antt =====
-- balloc/balloc.go: releasing what was allocated gives the bitmap back.
use pp.Prelude.{
  ℕ, zero, suc, ◌+◌, ◌-◌, ◌≤◌, ◌<◌, ◌≡◌, ◌≢◌, refl, ◌∙◌, ap, Bool, true, false, Option, none, some,
  List, [], ◌∷◌, length, get_elem?, set, ltb, ◌==◌, if◌then◌else◌, ◌>>=◌, >>=-eq-some, some-cancel,
  Bool-cases, inl, inr, arith, get_elem?-set_self, get_elem?-set_ne,
}
use mathlib.Core.Path.{sym, subst}
use pp.Balloc.{
  Bitmap, set_bit, clear_bit, find_free, next_block, alloc_bits, alloc_blocks, relse_one,
  relse_blocks,
}

set-set_comm : (b : Bitmap) (i j u v : ℕ) → i ≢ j → set (set b i u) j v ≡ set (set b j v) i u
set-set_comm [] i j u v n = refl
set-set_comm (x ∷ b) zero zero u v n = absurd (n refl)
set-set_comm (x ∷ b) zero (suc j) u v n = refl
set-set_comm (x ∷ b) (suc i) zero u v n = refl
set-set_comm (x ∷ b) (suc i) (suc j) u v n =
    ap (λ t. x ∷ t) (set-set_comm b i j u v (λ e. n (ap suc e)))

-- Clearing a bit that was clear and was set.
clear-set : (b : Bitmap) (i : ℕ) → get_elem? b i ≡ some 0 → clear_bit (set_bit b i) i ≡ b
clear-set [] i h = refl
clear-set (x ∷ b) zero h = ap (λ t. t ∷ b) (sym (some-cancel h))
clear-set (x ∷ b) (suc i) h = ap (λ t. x ∷ t) (clear-set b i h)

find_free-free : (b : Bitmap) (i : ℕ) → find_free b ≡ some i → get_elem? b i ≡ some 0
unfolding find_free
find_free-free [] i h = cc
find_free-free (x ∷ b) i h = elim (Bool-cases (x == 0)) [
  | inl e ↦
      let k : some 0 ≡ some i = rw (sym h, e) in
      let z : x ≡ 0 = ground (arith, e) in rw (sym (some-cancel k)) (ap some z)
  | inr e ↦
      let f : ℕ → Option ℕ = λ j. some (suc j) in
      let k : (find_free b >>= f) ≡ some i = rw (sym h, e) in
      let (j, q, r) = >>=-eq-some (find_free b) f k in
      rw (sym (some-cancel r)) (find_free-free b j q)
]

get_elem?-bound : (b : Bitmap) (i : ℕ) {v : ℕ} → get_elem? b i ≡ some v → i < length b
get_elem?-bound [] i h = cc
get_elem?-bound (x ∷ b) zero h = omega arith
get_elem?-bound (x ∷ b) (suc i) h = omega (arith, get_elem?-bound b i h)

else_some :
    {A : Type 0} (t : Bool) {x y : A}
    → (if t then none else some x) ≡ some y
    → (t ≡ false) × (y ≡ x)
else_some true h = cc
else_some false h = (refl, sym (some-cancel h))

-- A release that is done clears a bit that was set.
pub record Cleared (start bn : ℕ) (b b' : Bitmap) : Type 0 where
  pub bit : ℕ
  pub at : get_elem? b (bn - start) ≡ some bit
  pub was_set : (bit == 0) ≡ false
  pub now : b' ≡ clear_bit b (bn - start)
  pub above : ltb bn start ≡ false

relse_one-Cleared :
    (start bn : ℕ) (b b' : Bitmap) → relse_one start bn b ≡ some b' → Cleared start bn b b'
unfolding relse_one
relse_one-Cleared start bn b b' h = elim (Bool-cases (ltb bn start)) [
  | inl e ↦ let k : none ≡ some b' = rw (sym h, e) refl in absurd cc
  | inr e ↦
      let f : ℕ → Option Bitmap =
        λ bit. if bit == 0 then none else some (clear_bit b (bn - start)) in
      let k : (get_elem? b (bn - start) >>= f) ≡ some b' = rw (sym h, e) in
      let (v, q, r) = >>=-eq-some (get_elem? b (bn - start)) f k in
      let (z, w) = else_some (v == 0) r in
      record { bit = v; at = q; was_set = z; now = w; above = e }
]

relse_one-at :
    (start bn : ℕ) (b : Bitmap) (v : ℕ)
    → ltb bn start ≡ false
    → get_elem? b (bn - start) ≡ some v
    → (v == 0) ≡ false
    → relse_one start bn b ≡ some (clear_bit b (bn - start))
unfolding relse_one
relse_one-at start bn b v lt e z = rw (lt, e, z)

-- A free bit stays free.
relse_blocks-free :
    (start : ℕ) (bns : List ℕ) (b b' : Bitmap) (j : ℕ)
    → relse_blocks start bns b ≡ some b'
    → get_elem? b j ≡ some 0
    → get_elem? b' j ≡ some 0
unfolding relse_blocks
relse_blocks-free start [] b b' j h z = rw (sym (some-cancel h)) z
relse_blocks-free start (bn ∷ bns) b b' j h z =
    let (c, e, r) = >>=-eq-some (relse_one start bn b) (relse_blocks start bns) h in
    let k = relse_one-Cleared start bn b c e in
    relse_blocks-free start bns c b' j r (
      subst (λ t. get_elem? t j ≡ some 0) (sym k.now)
        (elim (Bool-cases ((bn - start) == j)) [
          | inl i ↦
              let q : bn - start ≡ j = ground (arith, i) in
              rw q (get_elem?-set_self b j 0 (get_elem?-bound b j z))
          | inr i ↦ let n : (bn - start) ≢ j = ground (arith, i) in get_elem?-set_ne b 0 n ∙ z
        ]))

-- A bit that is set at the end can be cleared before as well as after.
relse_blocks-clear :
    (start : ℕ) (bns : List ℕ) (b b' : Bitmap) (i : ℕ)
    → relse_blocks start bns b ≡ some b'
    → get_elem? b' i ≡ some 1
    → relse_blocks start bns (clear_bit b i) ≡ some (clear_bit b' i)
unfolding relse_blocks
relse_blocks-clear start [] b b' i h z = ap (λ o. o >>= λ t. some (clear_bit t i)) h
relse_blocks-clear start (bn ∷ bns) b b' i h z =
    let (c, e, r) = >>=-eq-some (relse_one start bn b) (relse_blocks start bns) h in
    let k = relse_one-Cleared start bn b c e in
    let ne : i ≢ (bn - start) = λ q.
      let w : get_elem? c i ≡ some 0 =
        subst (λ t. get_elem? t i ≡ some 0) (sym k.now)
          (rw (sym q)
            (get_elem?-set_self b i 0 (rw (sym q) at (get_elem?-bound b (bn - start) k.at)))) in
      let x = relse_blocks-free start bns c b' i r w in absurd cc in
    let one : relse_one start bn (clear_bit b i) ≡ some (clear_bit c i) =
      relse_one-at start bn (clear_bit b i) k.bit k.above (get_elem?-set_ne b 0 ne ∙ k.at) k.was_set
      ∙ ap some (set-set_comm b i (bn - start) 0 0 ne ∙ ap (λ t. clear_bit t i) (sym k.now)) in
    rw one (relse_blocks-clear start bns c b' i r z)

-- A bit that is set at the end was set before.
relse_blocks-set :
    (start : ℕ) (bns : List ℕ) (b b' : Bitmap) (i : ℕ)
    → relse_blocks start bns b ≡ some b'
    → get_elem? b' i ≡ some 1
    → get_elem? b i ≡ some 1
unfolding relse_blocks
relse_blocks-set start [] b b' i h z = rw (some-cancel h) z
relse_blocks-set start (bn ∷ bns) b b' i h z =
    let (c, e, r) = >>=-eq-some (relse_one start bn b) (relse_blocks start bns) h in
    let k = relse_one-Cleared start bn b c e in
    let w : get_elem? (clear_bit b (bn - start)) i ≡ some 1 =
      subst (λ t. get_elem? t i ≡ some 1) k.now (relse_blocks-set start bns c b' i r z) in
    elim (Bool-cases ((bn - start) == i)) [
      | inl q ↦
          let q' : bn - start ≡ i = ground (arith, q) in
          let x : get_elem? (clear_bit b (bn - start)) i ≡ some 0 =
            rw q' (get_elem?-set_self b i 0 (rw q' at (get_elem?-bound b (bn - start) k.at))) in
          absurd cc
      | inr q ↦ let n : (bn - start) ≢ i = ground (arith, q) in sym (get_elem?-set_ne b 0 n) ∙ w
    ]

next_block-released :
    (start : ℕ) (o : Option ℕ) (rest : Bitmap → Bitmap × List ℕ) (b : Bitmap)
    → find_free b ≡ o
    → ((c : Bitmap) → relse_blocks start (rest c).1 (rest c).0 ≡ some c)
    → relse_blocks start (next_block start o rest b).1 (next_block start o rest b).0 ≡ some b
unfolding next_block relse_blocks
next_block-released start none rest b e ih = ih b
next_block-released start (some i) rest b e ih =
    let c = set_bit b i in
    let r = rest c in
    let free = find_free-free b i e in
    let here : get_elem? c i ≡ some 1 = get_elem?-set_self b i 1 (get_elem?-bound b i free) in
    let low : ltb (i + start) start ≡ false = ground arith in
    let back : i + start - start ≡ i = omega arith in
    let one : relse_one start (i + start) r.0 ≡ some (clear_bit r.0 i) = rw back at (
      relse_one-at start (i + start) r.0 1 low
        (rw back (relse_blocks-set start r.1 r.0 c i (ih c) here)) refl) in
    rw one (relse_blocks-clear start r.1 r.0 c i (ih c) here ∙ ap some (clear-set b i free))

alloc_bits-released :
    (start cnt : ℕ) (b : Bitmap)
    → relse_blocks start (alloc_bits start cnt b).1 (alloc_bits start cnt b).0 ≡ some b
unfolding alloc_bits relse_blocks
alloc_bits-released start zero b = refl
alloc_bits-released start (suc cnt) b =
    next_block-released start (find_free b) (alloc_bits start cnt) b refl
      (alloc_bits-released start cnt)

-- Where the allocation succeeds, as many blocks as were asked for are given, and releasing them does not stop the process
-- and gives the bitmap back as it was: every block given was free.
pub alloc_blocks-released :
    (start cnt : ℕ) (b b' : Bitmap) (blks : List ℕ)
    → alloc_blocks start cnt b ≡ some (b', blks)
    → (cnt ≤ length blks) × (relse_blocks start blks b' ≡ some b)
unfolding alloc_blocks
alloc_blocks-released start cnt b b' blks h =
    let r = alloc_bits start cnt b in
    let (t, q) = else_some (ltb (length r.1) cnt) h in
    let enough : (r : Bitmap × List ℕ) → ltb (length r.1) cnt ≡ false → cnt ≤ length r.1 =
      λ r t. ground (arith, t) in
    (
      subst (λ (p : Bitmap × List ℕ). cnt ≤ length p.1) (sym q) (enough r t),
      subst (λ (p : Bitmap × List ℕ). relse_blocks start p.1 p.0 ≡ some b) (sym q)
          (alloc_bits-released start cnt b),
    )

-- ===== src/Raft/Election/Quorum.antt =====
-- raft/fns.go: two majorities of the servers have a server in common.
use pp.Prelude.{
  ℕ, zero, suc, ◌+◌, ◌≤◌, ◌<◌, ◌≡◌, refl, sym, ap, ◌∙◌, Bool, true, false, ◌||◌, List, [], ◌∷◌,
  length, ◌==◌, if◌then◌else◌, arith, Bool-cases, inl, inr,
}

-- How many of the numbers below `n` pass a test.
abbrev pub count : ℕ → (ℕ → Bool) → ℕ
count zero p = 0
count (suc n) p = count n p + (if p n then 1 else 0)

abbrev pub is_in : ℕ → List ℕ → Bool
is_in i [] = false
is_in i (x ∷ l) = (x == i) || is_in i l

-- Different numbers below `n`.
abbrev pub Distinct : ℕ → List ℕ → Type 0
Distinct n [] = Unit
Distinct n (x ∷ l) = (x < n) × (is_in x l ≡ false) × Distinct n l

-- Tests that more than `n` numbers pass, counted together, are passed by one number both.
pub count-meets :
    (n : ℕ) (p q : ℕ → Bool)
    → n < count n p + count n q
    → (i : ℕ) × (i < n) × (p i ≡ true) × (q i ≡ true)
count-meets zero p q h = absurd (omega (arith, h))
count-meets (suc n) p q h = elim (Bool-cases (p n)) [
  | inl a ↦ elim (Bool-cases (q n)) [
    | inl b ↦ (n, omega arith, a, b)
    | inr b ↦
        let (i, lt, x, y) = count-meets n p q (ground (arith, h)) in (i, omega (arith, lt), x, y)
  ]
  | inr a ↦
      let (i, lt, x, y) = count-meets n p q (ground (arith, h)) in (i, omega (arith, lt), x, y)
]

-- One number more, which lies beyond the range or in it.
count-beyond : (n x : ℕ) (p : ℕ → Bool) → n ≤ x → count n (λ i. (x == i) || p i) ≡ count n p
count-beyond zero x p h = refl
count-beyond (suc n) x p h = ground (arith, count-beyond n x p)

count-more :
    (n x : ℕ) (p : ℕ → Bool)
    → x < n
    → p x ≡ false
    → count n (λ i. (x == i) || p i) ≡ suc (count n p)
count-more zero x p lt h = absurd (omega (arith, lt))
count-more (suc n) x p lt h = elim (Bool-cases (x == n)) [
  | inl e ↦
      let same : x ≡ n = ground arith in
      let none_at : p n ≡ false = ap p (sym same) ∙ h in ground (arith, count-beyond n x p)
  | inr e ↦ let less : x < n = ground arith in ground (arith, count-more n x p less h)
]

pub length-count : (n : ℕ) (l : List ℕ) → Distinct n l → length l ≤ count n (λ i. is_in i l)
length-count n [] h = omega arith
length-count n (x ∷ l) (lt, new, h) =
    omega (arith, length-count n l h, count-more n x (λ i. is_in i l) lt new)

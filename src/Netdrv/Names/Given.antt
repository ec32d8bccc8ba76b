-- ===== src/Netdrv/Names/Given.antt =====
-- netdrv/ppns.go: each name below the next one has one address, and no address has two.
use pp.Prelude.{
  ℕ, suc, ◌<◌, ◌≡◌, ◌≢◌, refl, sym, ap, ◌∙◌, true, false, none, some, List, [], ◌∷◌, ◌==◌, arith,
  Bool-cases, inl, inr, ltb, ltb→lt, ltb→le, ==_refl, ◌≤◌, subst,
}
use pp.Text.{Bytes, beq, beq-eq, beq-ne, beq_refl}
use pp.Netdrv.Names.{NameServer, name_of, address_of}

-- The names were given one after the other, each to a new address.
abbrev pub Given : List (ℕ × Bytes) → ℕ → Type 0
Given [] bound = bound ≡ 0
Given ((n, a) ∷ l) bound = (bound ≡ suc n) × (name_of a l ≡ none) × Given l n

abbrev pub IsValid : NameServer → Type 0
IsValid n = Given n.names n.max_name

-- The pair in front is found for its address, and no other.
name_of-here :
    (n : ℕ) (a b : Bytes) (l : List (ℕ × Bytes)) → beq b a ≡ true → name_of a ((n, b) ∷ l) ≡ some n
unfolding name_of
name_of-here n a b l t = rw t refl

pub name_of-later :
    (n : ℕ) (a b : Bytes) (l : List (ℕ × Bytes))
    → beq b a ≡ false
    → name_of a ((n, b) ∷ l) ≡ name_of a l
unfolding name_of
name_of-later n a b l t = rw t refl

address_of-here : (n : ℕ) (b : Bytes) (l : List (ℕ × Bytes)) → address_of n ((n, b) ∷ l) ≡ some b
unfolding address_of
address_of-here n b l = rw (==_refl n) refl

pub address_of-later :
    (n k : ℕ) (b : Bytes) (l : List (ℕ × Bytes))
    → n ≢ k
    → address_of k ((n, b) ∷ l) ≡ address_of k l
unfolding address_of
address_of-later n k b l h = let e : (n == k) ≡ false = ground arith in rw e refl

-- A name that is found was given, and has the address.
pub name_of-Given :
    (l : List (ℕ × Bytes)) (bound : ℕ) (a : Bytes) (k : ℕ)
    → Given l bound
    → name_of a l ≡ some k
    → (k < bound) × (address_of k l ≡ some a)
unfolding name_of
name_of-Given [] bound a k g h = absurd cc
name_of-Given ((n, b) ∷ l) bound a k (e, f, g) h = elim (Bool-cases (beq b a)) [
  | inl t ↦
      let first : some n ≡ some k = sym (name_of-here n a b l t) ∙ h in
      let same : n ≡ k = cc in
      (
        omega (arith, same, e),
        subst (λ j. address_of j ((n, b) ∷ l) ≡ some a) same
            (address_of-here n b l ∙ ap some (beq-eq b a t)),
      )
  | inr t ↦
      let (low, at) = name_of-Given l n a k g (sym (name_of-later n a b l t) ∙ h) in
      (omega (arith, low, e), address_of-later n k b l (omega (arith, low)) ∙ at)
]

-- A name that was given has an address, and is the name of that address.
pub address_of-Given :
    (l : List (ℕ × Bytes)) (bound : ℕ) (k : ℕ)
    → Given l bound
    → k < bound
    → (a : Bytes) × (address_of k l ≡ some a) × (name_of a l ≡ some k)
address_of-Given [] bound k g h = absurd (omega (arith, g, h))
address_of-Given ((n, b) ∷ l) bound k (e, f, g) h = elim (Bool-cases (n == k)) [
  | inl t ↦
      let same : n ≡ k = ground arith in
      subst
        (λ j.
          (a : Bytes) × (address_of j ((n, b) ∷ l) ≡ some a) × (name_of a ((n, b) ∷ l) ≡ some j))
        same (b, address_of-here n b l, name_of-here n b b l (beq_refl b))
  | inr t ↦
      let other : n ≢ k = ground arith in
      let (a, at, named) = address_of-Given l n k g (omega (arith, other, h, e)) in
      let new : beq b a ≡ false =
        beq-ne b a
          (λ same. let e : none ≡ some k = sym f ∙ ap (λ x. name_of x l) same ∙ named in cc) in
      (a, address_of-later n k b l other ∙ at, name_of-later n a b l new ∙ named)
]

-- A name that was not given has no address.
pub address_of-none :
    (l : List (ℕ × Bytes)) (bound : ℕ) (k : ℕ) → Given l bound → bound ≤ k → address_of k l ≡ none
unfolding address_of
address_of-none [] bound k g h = refl
address_of-none ((n, b) ∷ l) bound k (e, f, g) h =
    address_of-later n k b l (omega (arith, e)) ∙ address_of-none l n k g (omega (arith, e))

-- The address that a name has is the address whose name it is.
pub address_of-name :
    (l : List (ℕ × Bytes)) (bound : ℕ) (k : ℕ) (a : Bytes)
    → Given l bound
    → address_of k l ≡ some a
    → name_of a l ≡ some k
address_of-name l bound k a g at = elim (Bool-cases (ltb k bound)) [
  | inl t ↦
      let (b, e, named) = address_of-Given l bound k g (ltb→lt k bound t) in
      let both : some b ≡ some a = sym e ∙ at in
      let same : b ≡ a = cc in ap (λ x. name_of x l) (sym same) ∙ named
  | inr t ↦ let e = sym (address_of-none l bound k g (ltb→le k bound t)) ∙ at in absurd cc
]

-- ===== src/Raft/Step/Ballots.antt =====
-- raft/raft.go: the votes that a server gave, as a list of terms and candidates.
use pp.Prelude.{
  ℕ, zero, suc, ◌≡◌, sym, ◌∙◌, ap, subst, some, List, [], ◌∷◌, ◌++◌, some-cancel, get_elem?,
}
use pp.Prelude.Int.{ℤ}

abbrev pub Vote : Type 0
Vote = ℕ × ℤ

abbrev pub All {ℓ} : {A : Type 0} → (A → Type ℓ) → List A → Type ℓ
All P [] = Unit
All P (x ∷ xs) = P x × All P xs

-- Two votes of one term are for one candidate.
abbrev pub OneEach : List Vote → Type 0
OneEach [] = Unit
OneEach (v ∷ vs) = All (λ (w : Vote). w.0 ≡ v.0 → w.1 ≡ v.1) vs × OneEach vs

pub All-append :
    {A : Type 0} (P : A → Type 0) (xs ys : List A) → All P xs → All P ys → All P (xs ++ ys)
All-append P [] ys h k = k
All-append P (x ∷ xs) ys (p, h) k = (p, All-append P xs ys h k)

lookup-All :
    {A : Type 0} (P : A → Type 0) (xs : List A) (i : ℕ) (a : A)
    → All P xs
    → get_elem? xs i ≡ some a
    → P a
lookup-All P [] i a h e = cc
lookup-All P (x ∷ xs) zero a h e = subst P (some-cancel e) h.0
lookup-All P (x ∷ xs) (suc i) a h e = lookup-All P xs i a h.1 e

pub lookup-OneEach :
    (vs : List Vote) (i j : ℕ) (v w : Vote)
    → OneEach vs
    → get_elem? vs i ≡ some v
    → get_elem? vs j ≡ some w
    → v.0 ≡ w.0
    → v.1 ≡ w.1
lookup-OneEach [] i j v w o p q e = cc
lookup-OneEach (x ∷ xs) zero zero v w o p q e = ap (λ (t : Vote). t.1) (some-cancel (sym p ∙ q))
lookup-OneEach (x ∷ xs) zero (suc j) v w o p q e =
    let x' = some-cancel p in
    let t = lookup-All (λ (w : Vote). w.0 ≡ x.0 → w.1 ≡ x.1) xs j w o.0 q in
    sym (t (sym e ∙ ap (λ (t : Vote). t.0) (sym x')) ∙ ap (λ (t : Vote). t.1) x')
lookup-OneEach (x ∷ xs) (suc i) zero v w o p q e =
    let x' = some-cancel q in
    let t = lookup-All (λ (w : Vote). w.0 ≡ x.0 → w.1 ≡ x.1) xs i v o.0 p in
    t (e ∙ ap (λ (t : Vote). t.0) (sym x')) ∙ ap (λ (t : Vote). t.1) x'
lookup-OneEach (x ∷ xs) (suc i) (suc j) v w o p q e = lookup-OneEach xs i j v w o.1 p q e

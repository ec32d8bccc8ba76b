-- ===== src/Raft/Commit/Sorted.antt =====
-- raft/fns.go: how many servers are at the median of `rvwCommits`, or past it.
use pp.Prelude.{
  ℕ, zero, suc, ◌+◌, ◌≤◌, ◌<◌, ◌≡◌, refl, sym, ◌∙◌, ap, some, List, [], ◌∷◌, length, get_elem?, leb,
  if◌then◌else◌, some-cancel, Bool-cases, inl, inr, arith, subst,
}
use pp.Raft.Commit.{insert_int, sort_ints}

abbrev pub count_ge : ℕ → List ℕ → ℕ
count_ge m [] = 0
count_ge m (x ∷ xs) = let rest = count_ge m xs in if leb m x then suc rest else rest

abbrev AtLeast : ℕ → List ℕ → Type 0
AtLeast a [] = Unit
AtLeast a (x ∷ xs) = (a ≤ x) × AtLeast a xs

abbrev pub IsSorted : List ℕ → Type 0
IsSorted [] = Unit
IsSorted (x ∷ xs) = AtLeast x xs × IsSorted xs

abbrev pub AllBelow : ℕ → List ℕ → Type 0
AllBelow b [] = Unit
AllBelow b (x ∷ xs) = (x < b) × AllBelow b xs

AtLeast-trans : (a b : ℕ) (xs : List ℕ) → a ≤ b → AtLeast b xs → AtLeast a xs
AtLeast-trans a b [] le h = tt
AtLeast-trans a b (x ∷ xs) le h = (omega (arith, h.0), AtLeast-trans a b xs le h.1)

insert_int-AtLeast : (a b : ℕ) (xs : List ℕ) → b ≤ a → AtLeast b xs → AtLeast b (insert_int a xs)
unfolding insert_int
insert_int-AtLeast a b [] le h = (le, tt)
insert_int-AtLeast a b (x ∷ xs) le h = elim (Bool-cases (leb a x)) [
  | inl e ↦ rw e (le, h)
  | inr e ↦ rw e (h.0, insert_int-AtLeast a b xs le h.1)
]

insert_int-IsSorted : (a : ℕ) (xs : List ℕ) → IsSorted xs → IsSorted (insert_int a xs)
unfolding insert_int
insert_int-IsSorted a [] h = (tt, tt)
insert_int-IsSorted a (x ∷ xs) h = elim (Bool-cases (leb a x)) [
  | inl e ↦ let le : a ≤ x = ground (arith, e) in rw e ((le, AtLeast-trans a x xs le h.0), h)
  | inr e ↦
      let le : x ≤ a = ground (arith, e) in
      rw e (insert_int-AtLeast a x xs le h.0, insert_int-IsSorted a xs h.1)
]

insert_int-count : (m a : ℕ) (xs : List ℕ) → count_ge m (insert_int a xs) ≡ count_ge m (a ∷ xs)
unfolding insert_int
insert_int-count m a [] = refl
insert_int-count m a (x ∷ xs) = ground (arith, insert_int-count m a xs)

insert_int-length : (a : ℕ) (xs : List ℕ) → length (insert_int a xs) ≡ suc (length xs)
unfolding insert_int
insert_int-length a [] = refl
insert_int-length a (x ∷ xs) = ground (arith, insert_int-length a xs)

insert_int-AllBelow : (a b : ℕ) (xs : List ℕ) → a < b → AllBelow b xs → AllBelow b (insert_int a xs)
unfolding insert_int
insert_int-AllBelow a b [] lt h = (lt, tt)
insert_int-AllBelow a b (x ∷ xs) lt h = elim (Bool-cases (leb a x)) [
  | inl e ↦ rw e (lt, h)
  | inr e ↦ rw e (h.0, insert_int-AllBelow a b xs lt h.1)
]

pub sort_ints-IsSorted : (xs : List ℕ) → IsSorted (sort_ints xs)
unfolding sort_ints
sort_ints-IsSorted [] = tt
sort_ints-IsSorted (x ∷ xs) = insert_int-IsSorted x (sort_ints xs) (sort_ints-IsSorted xs)

pub sort_ints-count : (m : ℕ) (xs : List ℕ) → count_ge m (sort_ints xs) ≡ count_ge m xs
unfolding sort_ints
sort_ints-count m [] = refl
sort_ints-count m (x ∷ xs) = insert_int-count m x (sort_ints xs) ∙ rw (sort_ints-count m xs) refl

pub sort_ints-length : (xs : List ℕ) → length (sort_ints xs) ≡ length xs
unfolding sort_ints
sort_ints-length [] = refl
sort_ints-length (x ∷ xs) = insert_int-length x (sort_ints xs) ∙ ap suc (sort_ints-length xs)

pub sort_ints-AllBelow : (b : ℕ) (xs : List ℕ) → AllBelow b xs → AllBelow b (sort_ints xs)
unfolding sort_ints
sort_ints-AllBelow b [] h = tt
sort_ints-AllBelow b (x ∷ xs) h =
    insert_int-AllBelow x b (sort_ints xs) h.0 (sort_ints-AllBelow b xs h.1)

AtLeast-count : (m : ℕ) (xs : List ℕ) → AtLeast m xs → count_ge m xs ≡ length xs
AtLeast-count m [] h = refl
AtLeast-count m (x ∷ xs) h = ground (arith, AtLeast-count m xs h.1, h.0)

-- All from place `k` of a sorted list on are at least what stands there.
pub get-count :
    (xs : List ℕ) (k m : ℕ) → IsSorted xs → get_elem? xs k ≡ some m → length xs ≤ k + count_ge m xs
get-count [] k m s h = cc
get-count (x ∷ xs) zero m s h =
    let q : x ≡ m = some-cancel h in
    let at : AtLeast m xs = subst (λ a. AtLeast a xs) q s.0 in
    let c : count_ge m (x ∷ xs) ≡ length (x ∷ xs) =
      AtLeast-count m (x ∷ xs) (omega (arith, q), at) in
    omega (arith, c)
get-count (x ∷ xs) (suc k) m s h = let ih = get-count xs k m s.1 h in ground (arith, ih)

pub get-AllBelow : (b : ℕ) (xs : List ℕ) (k m : ℕ) → AllBelow b xs → get_elem? xs k ≡ some m → m < b
get-AllBelow b [] k m h e = cc
get-AllBelow b (x ∷ xs) zero m h e = let q : x ≡ m = some-cancel e in rw (sym q) h.0
get-AllBelow b (x ∷ xs) (suc k) m h e = get-AllBelow b xs k m h.1 e

pub get-some : (xs : List ℕ) (k : ℕ) → k < length xs → (m : ℕ) × (get_elem? xs k ≡ some m)
get-some [] k lt = absurd (omega arith)
get-some (x ∷ xs) zero lt = (x, refl)
get-some (x ∷ xs) (suc k) lt = get-some xs k (omega arith)

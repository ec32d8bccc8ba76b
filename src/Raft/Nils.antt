-- ===== src/Raft/Nils.antt =====
-- raft/raft.go: the log as a run of nil entries before the entries that are there.
use pp.Prelude.{
  ℕ, zero, suc, ◌+◌, ◌<◌, ◌≡◌, refl, ap, Option, none, some, [], ◌∷◌, ◌++◌, length, get_elem?, set,
  drop, replicate, arith, length-append, length-replicate,
}
use pp.Raft.State.{LogEntry}
use pp.Raft.Log.{Slots, entry_at, IsLive, IsTrimmed}

module _ {C : Type 0} where
  -- What is left of a log that was given up below index `n`.
  abbrev pub nils : ℕ → Slots C
  nils n = replicate n none

  pub nils-suc : (i : ℕ) (r : Slots C) → nils i ++ none ∷ r ≡ nils (suc i) ++ r
  nils-suc zero r = refl
  nils-suc (suc i) r = ap (λ t. none ∷ t) (nils-suc i r)

  pub set-nils :
      (i : ℕ) (x y : Option (LogEntry C)) (r : Slots C)
      → set (nils i ++ x ∷ r) i y ≡ nils i ++ y ∷ r
  set-nils zero x y r = refl
  set-nils (suc i) x y r = ap (λ t. none ∷ t) (set-nils i x y r)

  pub entry_at-nils :
      (i : ℕ) (x : Option (LogEntry C)) (r : Slots C) → entry_at (nils i ++ x ∷ r) i ≡ x
  unfolding entry_at
  entry_at-nils zero x r = refl
  entry_at-nils (suc i) x r = entry_at-nils i x r

  pub length-nils : (i : ℕ) (r : Slots C) → length (nils i ++ r) ≡ i + length r
  length-nils i r =
      omega (arith, length-append (nils i) r, length-replicate {A = Option (LogEntry C)} i none)

  pub IsTrimmed-nils : (n : ℕ) (xs : Slots C) → IsTrimmed n xs → nils n ++ drop n xs ≡ xs
  IsTrimmed-nils n [] h = absurd h
  IsTrimmed-nils zero (none ∷ xs) h = absurd h
  IsTrimmed-nils zero (some e ∷ xs) h = refl
  IsTrimmed-nils (suc n) (none ∷ xs) h = ap (λ t. none ∷ t) (IsTrimmed-nils n xs h)
  IsTrimmed-nils (suc n) (some e ∷ xs) h = absurd h

  pub nils-IsTrimmed :
      (n : ℕ) (e : LogEntry C) (r : Slots C) → IsLive r → IsTrimmed n (nils n ++ some e ∷ r)
  nils-IsTrimmed zero e r h = h
  nils-IsTrimmed (suc n) e r h = nils-IsTrimmed n e r h

  pub IsLive-drop : (n : ℕ) (xs : Slots C) → IsLive xs → IsLive (drop n xs)
  IsLive-drop zero xs h = h
  IsLive-drop (suc n) [] h = tt
  IsLive-drop (suc n) (none ∷ xs) h = absurd h
  IsLive-drop (suc n) (some e ∷ xs) h = IsLive-drop n xs h

  pub get_elem?-nils_at :
      (i : ℕ) (x : Option (LogEntry C)) (r : Slots C) → get_elem? (nils i ++ x ∷ r) i ≡ some x
  get_elem?-nils_at zero x r = refl
  get_elem?-nils_at (suc i) x r = get_elem?-nils_at i x r

  pub get_elem?-nils_below : (i n : ℕ) (r : Slots C) → i < n → get_elem? (nils n ++ r) i ≡ some none
  get_elem?-nils_below i zero r h = absurd (omega arith)
  get_elem?-nils_below zero (suc n) r h = refl
  get_elem?-nils_below (suc i) (suc n) r h = get_elem?-nils_below i n r (omega arith)

-- ===== src/Raft/Log.antt =====
-- raft/raft.go: the log as a slice of pointers. The head of a log that was given up for a snapshot
-- is nil; the entries from the snapshot's index on are there.
use pp.Prelude.{
  Option-cases, inl, inr, le-lt-absurd, ℕ, zero, suc, ◌-◌, ◌≤◌, ◌<◌, ◌≡◌, refl, Option, none, some,
  List, [], ◌∷◌, ◌++◌, map, arith, ap, length, take, drop, get_elem?, ◌>>=◌,
}
use pp.Raft.State.{LogEntry}

abbrev pub Slots : Type 0 → Type 0
Slots C = List (Option (LogEntry C))

module _ {C : Type 0} where
  -- `rf.log[i]` where a field of it is read: `none` is an index out of range or a nil pointer.
  unfoldable pub entry_at : Slots C → ℕ → Option (LogEntry C)
  entry_at [] i = none
  entry_at (x ∷ xs) zero = x
  entry_at (x ∷ xs) (suc i) = entry_at xs i

  -- Encoding a slice of pointers: a nil pointer in it cannot be encoded.
  unfoldable pub live_entries : Slots C → Option (List (LogEntry C))
  live_entries [] = some []
  live_entries (none ∷ xs) = none
  live_entries (some e ∷ xs) = do es ← live_entries xs; some (e ∷ es)

  -- The entries that are there.
  unfoldable pub present : Slots C → List (LogEntry C)
  present [] = []
  present (none ∷ xs) = present xs
  present (some e ∷ xs) = e ∷ present xs

  abbrev pub IsLive : Slots C → Type 0
  IsLive [] = Unit
  IsLive (none ∷ xs) = ⊥
  IsLive (some e ∷ xs) = IsLive xs

  -- Nil below `n`, an entry at `n`, and entries from there on.
  abbrev pub IsTrimmed : ℕ → Slots C → Type 0
  IsTrimmed n [] = ⊥
  IsTrimmed zero (none ∷ xs) = ⊥
  IsTrimmed zero (some e ∷ xs) = IsLive xs
  IsTrimmed (suc n) (none ∷ xs) = IsTrimmed n xs
  IsTrimmed (suc n) (some e ∷ xs) = ⊥

module _ {C : Type 0} where
  pub IsLive-append : (xs ys : Slots C) → IsLive xs → IsLive ys → IsLive (xs ++ ys)
  IsLive-append [] ys h k = k
  IsLive-append (none ∷ xs) ys h k = absurd h
  IsLive-append (some e ∷ xs) ys h k = IsLive-append xs ys h k

  pub IsLive-map-some : (es : List (LogEntry C)) → IsLive (map some es)
  IsLive-map-some [] = tt
  IsLive-map-some (e ∷ es) = IsLive-map-some es

  pub IsLive-take : (n : ℕ) (xs : Slots C) → IsLive xs → IsLive (take n xs)
  IsLive-take zero xs h = tt
  IsLive-take (suc n) [] h = tt
  IsLive-take (suc n) (none ∷ xs) h = absurd h
  IsLive-take (suc n) (some e ∷ xs) h = IsLive-take n xs h

  pub IsLive-entry :
      (xs : Slots C) (i : ℕ)
      → IsLive xs
      → i < length xs
      → (e : LogEntry C) × (entry_at xs i ≡ some e)
  unfolding entry_at
  IsLive-entry [] i h k = absurd (omega arith)
  IsLive-entry (none ∷ xs) i h k = absurd h
  IsLive-entry (some e ∷ xs) zero h k = (e, refl)
  IsLive-entry (some e ∷ xs) (suc i) h k = IsLive-entry xs i h (omega arith)

  pub live_entries-IsLive : (xs : Slots C) → IsLive xs → live_entries xs ≡ some (present xs)
  unfolding live_entries present
  live_entries-IsLive [] h = refl
  live_entries-IsLive (none ∷ xs) h = absurd h
  live_entries-IsLive (some e ∷ xs) h =
      ap (λ o. o >>= λ es. some (e ∷ es)) (live_entries-IsLive xs h)

  pub map-some-present : (xs : Slots C) → IsLive xs → map some (present xs) ≡ xs
  unfolding present
  map-some-present [] h = refl
  map-some-present (none ∷ xs) h = absurd h
  map-some-present (some e ∷ xs) h = ap (λ t. some e ∷ t) (map-some-present xs h)

  pub IsTrimmed-length : (n : ℕ) (xs : Slots C) → IsTrimmed n xs → n < length xs
  IsTrimmed-length n [] h = absurd h
  IsTrimmed-length zero (none ∷ xs) h = absurd h
  IsTrimmed-length zero (some e ∷ xs) h = omega arith
  IsTrimmed-length (suc n) (none ∷ xs) h = omega (arith, IsTrimmed-length n xs h)
  IsTrimmed-length (suc n) (some e ∷ xs) h = absurd h

  -- An entry from the snapshot's index on can be read.
  pub IsTrimmed-entry :
      (n : ℕ) (xs : Slots C) (i : ℕ)
      → IsTrimmed n xs
      → n ≤ i
      → i < length xs
      → (e : LogEntry C) × (entry_at xs i ≡ some e)
  unfolding entry_at
  IsTrimmed-entry n [] i h le lt = absurd h
  IsTrimmed-entry zero (none ∷ xs) i h le lt = absurd h
  IsTrimmed-entry zero (some e ∷ xs) i h le lt = IsLive-entry (some e ∷ xs) i h lt
  IsTrimmed-entry (suc n) (none ∷ xs) zero h le lt = absurd (omega arith)
  IsTrimmed-entry (suc n) (none ∷ xs) (suc i) h le lt =
      IsTrimmed-entry n xs i h (omega arith) (omega arith)
  IsTrimmed-entry (suc n) (some e ∷ xs) i h le lt = absurd h

  -- An entry that can be read is not below the snapshot's index.
  pub entry-IsTrimmed :
      (n : ℕ) (xs : Slots C) (i : ℕ) {e : LogEntry C}
      → IsTrimmed n xs
      → entry_at xs i ≡ some e
      → (n ≤ i) × (i < length xs)
  unfolding entry_at
  entry-IsTrimmed n [] i h eq = absurd h
  entry-IsTrimmed zero (none ∷ xs) i h eq = absurd h
  entry-IsTrimmed zero (some e ∷ []) zero h eq = omega arith
  entry-IsTrimmed zero (some e ∷ []) (suc i) h eq = cc
  entry-IsTrimmed zero (some e ∷ none ∷ xs) i h eq = absurd h
  entry-IsTrimmed zero (some e ∷ some f ∷ xs) zero h eq = omega arith
  entry-IsTrimmed zero (some e ∷ some f ∷ xs) (suc i) h eq =
      omega (arith, entry-IsTrimmed zero (some f ∷ xs) i h eq)
  entry-IsTrimmed (suc n) (none ∷ xs) zero h eq = cc
  entry-IsTrimmed (suc n) (none ∷ xs) (suc i) h eq = omega (arith, entry-IsTrimmed n xs i h eq)
  entry-IsTrimmed (suc n) (some e ∷ xs) i h eq = absurd h

  pub IsTrimmed-take :
      (n : ℕ) (xs : Slots C) (i : ℕ) → IsTrimmed n xs → n ≤ i → IsTrimmed n (take (suc i) xs)
  IsTrimmed-take n [] i h le = absurd h
  IsTrimmed-take zero (none ∷ xs) i h le = absurd h
  IsTrimmed-take zero (some e ∷ xs) i h le = IsLive-take i xs h
  IsTrimmed-take (suc n) (none ∷ xs) zero h le = absurd (omega arith)
  IsTrimmed-take (suc n) (none ∷ xs) (suc i) h le = IsTrimmed-take n xs i h (omega arith)
  IsTrimmed-take (suc n) (some e ∷ xs) i h le = absurd h

  pub IsTrimmed-append :
      (n : ℕ) (xs : Slots C) (es : List (LogEntry C))
      → IsTrimmed n xs
      → IsTrimmed n (xs ++ map some es)
  IsTrimmed-append n [] es h = absurd h
  IsTrimmed-append zero (none ∷ xs) es h = absurd h
  IsTrimmed-append zero (some e ∷ xs) es h = IsLive-append xs (map some es) h (IsLive-map-some es)
  IsTrimmed-append (suc n) (none ∷ xs) es h = IsTrimmed-append n xs es h
  IsTrimmed-append (suc n) (some e ∷ xs) es h = absurd h

  pub IsTrimmed-drop : (n : ℕ) (xs : Slots C) → IsTrimmed n xs → IsLive (drop n xs)
  IsTrimmed-drop n [] h = absurd h
  IsTrimmed-drop zero (none ∷ xs) h = absurd h
  IsTrimmed-drop zero (some e ∷ xs) h = h
  IsTrimmed-drop (suc n) (none ∷ xs) h = IsTrimmed-drop n xs h
  IsTrimmed-drop (suc n) (some e ∷ xs) h = absurd h

  -- `rf.log[len(rf.log)-1]`
  unfoldable pub last_entry : Slots C → Option (LogEntry C)
  last_entry xs = entry_at xs (length xs - 1)

  pub last_entry-IsTrimmed :
      (n : ℕ) (xs : Slots C) → IsTrimmed n xs → (e : LogEntry C) × (last_entry xs ≡ some e)
  unfolding last_entry
  last_entry-IsTrimmed n xs h =
      let lt = IsTrimmed-length n xs h in
      IsTrimmed-entry n xs (length xs - 1) h (omega arith) (omega arith)

  pub entry_at-get_elem? :
      (xs : Slots C) (i : ℕ) → entry_at xs i ≡ (get_elem? xs i >>= λ (o : Option (LogEntry C)). o)
  unfolding entry_at
  entry_at-get_elem? [] i = refl
  entry_at-get_elem? (x ∷ xs) zero = refl
  entry_at-get_elem? (x ∷ xs) (suc i) = entry_at-get_elem? xs i

  pub entry_at-below :
      (n : ℕ) (xs : Slots C) (i : ℕ) → IsTrimmed n xs → i < n → entry_at xs i ≡ none
  entry_at-below n xs i h lt = elim (Option-cases (entry_at xs i)) [
    | inl e ↦ e
    | inr (x, e) ↦ absurd (le-lt-absurd (entry-IsTrimmed n xs i h e).0 lt)
  ]

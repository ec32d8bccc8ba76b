-- ===== src/Raft/Append/First.antt =====
-- raft/fns.go: `firstIndexForTerm` finds the first entry of a term.
use pp.Prelude.{
  ℕ, zero, suc, ◌+◌, ◌<◌, ◌≡◌, refl, none, some, [], ◌∷◌, arith, Bool-cases, inl, inr, ◌≢◌, ◌⊎◌,
}
use pp.Prelude.Int.{ℤ, pos, minus_one, eq_ℤ, eq_ℤ_iff}
use pp.Raft.State.{LogEntry}
use pp.Raft.Log.{Slots, entry_at}
use pp.Raft.Append.{first_from, first_index_for_term}

module _ {C : Type 0} where
  -- Index `k` is the first whose entry has term `t`.
  pub record IsFirst (t : ℤ) (log : Slots C) (k : ℕ) : Type 0 where
    pub entry : LogEntry C
    pub at : entry_at log k ≡ some entry
    pub term : pos entry.term ≡ t
    pub before : (j : ℕ) (e : LogEntry C) → j < k → entry_at log j ≡ some e → pos e.term ≢ t

  abbrev pub IsAbsent : ℤ → Slots C → Type 0
  IsAbsent t log = (j : ℕ) (e : LogEntry C) → entry_at log j ≡ some e → pos e.term ≢ t

  IsFirst-cons : (t : ℤ) (log : Slots C) (k : ℕ) → IsFirst t log k → IsFirst t (none ∷ log) (suc k)
  unfolding entry_at
  IsFirst-cons t log k f = record { entry = f.entry; at = f.at; term = f.term; before = go }
    where
      go : (j : ℕ) (e : LogEntry C) → j < suc k → entry_at (none ∷ log) j ≡ some e → pos e.term ≢ t
      go zero e lt p = cc
      go (suc j) e lt p = f.before j e (omega arith) p

  IsFirst-skip :
      (t : ℤ) (x : LogEntry C) (log : Slots C) (k : ℕ)
      → pos x.term ≢ t
      → IsFirst t log k
      → IsFirst t (some x ∷ log) (suc k)
  unfolding entry_at
  IsFirst-skip t x log k n f = record { entry = f.entry; at = f.at; term = f.term; before = go }
    where
      go :
          (j : ℕ) (e : LogEntry C) → j < suc k → entry_at (some x ∷ log) j ≡ some e → pos e.term ≢ t
      go zero e lt p = λ q. n (cc)
      go (suc j) e lt p = f.before j e (omega arith) p

  first_from-IsFirst :
      (t : ℤ) (i : ℕ) (log : Slots C)
      → ((k : ℕ) × (first_from t i log ≡ pos (i + k)) × IsFirst t log k)
        ⊎ ((first_from t i log ≡ minus_one) × IsAbsent t log)
  unfolding first_from entry_at
  first_from-IsFirst t i [] = inr (refl, λ j e p. cc)
  first_from-IsFirst t i (none ∷ xs) = elim (first_from-IsFirst t (suc i) xs) [
    | inl (k, found, f) ↦
        let q : suc i + k ≡ i + suc k = omega arith in
        inl (suc k, rw (← q) found, IsFirst-cons t xs k f)
    | inr (missed, a) ↦ inr (missed, elim [ zero ↦ λ e p. cc | suc j ↦ λ e p. a j e p ])
  ]
  first_from-IsFirst t i (some x ∷ xs) = elim (Bool-cases (eq_ℤ (pos x.term) t)) [
    | inl same ↦
        let q : i + 0 ≡ i = omega arith in
        inl (
          0,
          rw (same, q, first_from),
          record {
            entry = x;
            at = refl;
            term = (eq_ℤ_iff _ _).0 same;
            before = λ j e lt p. absurd (omega arith);
          },
        )
    | inr other ↦
        let n : pos x.term ≢ t = λ e. cc (other, (eq_ℤ_iff (pos x.term) t).1 e) in
        elim (first_from-IsFirst t (suc i) xs) [
          | inl (k, found, f) ↦
              let q : suc i + k ≡ i + suc k = omega arith in
              inl (suc k, rw (other, ← q, first_from) found, IsFirst-skip t x xs k n f)
          | inr (missed, a) ↦ inr (
            rw (other, first_from) missed,
            elim [ zero ↦ λ e p q. n (cc) | suc j ↦ λ e p. a j e p ],
          )
        ]
  ]

  -- `firstIndexForTerm` returns the index of the first entry of the term, and -1 exactly when the log
  -- has no entry of that term.
  pub first_index_for_term-IsFirst :
      (t : ℤ) (log : Slots C)
      → ((k : ℕ) × (first_index_for_term t log ≡ pos k) × IsFirst t log k)
        ⊎ ((first_index_for_term t log ≡ minus_one) × IsAbsent t log)
  unfolding first_index_for_term
  first_index_for_term-IsFirst t log = elim (first_from-IsFirst t 0 log) [
    | inl (k, found, f) ↦ let q : 0 + k ≡ k = omega arith in inl (k, rw (← q) found, f)
    | inr a ↦ inr a
  ]

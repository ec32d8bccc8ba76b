-- ===== src/Raft/Append/Hints.antt =====
-- raft/raft.go: what `AppendEntries` answers where the logs do not agree.
use pp.Prelude.{
  ℕ, zero, suc, ◌≤◌, ◌<◌, ◌≡◌, refl, ap, ◌∙◌, sym, false, none, some, List, [], ◌∷◌, length, arith,
  get_elem?, ◌>>=◌, inl, inr, some-cancel, le-lt-absurd,
}
use pp.Prelude.Int.{ℤ, pos, minus_one}
use pp.Raft.State.{LogEntry, AppendEntriesArgs, AppendEntriesReply}
use pp.Raft.Log.{Slots, entry_at, entry_at-get_elem?}
use pp.Raft.Append.{first_index_for_term, failure}
use pp.Raft.Append.First.{IsFirst, first_index_for_term-IsFirst}

-- The reply has term `t` and no success; and it has these hints for the leader.
abbrev pub Refused : ℕ → AppendEntriesReply → Type 0
Refused t reply = (reply.term ≡ t) × (reply.success ≡ false)

abbrev pub Hints : AppendEntriesReply → ℤ → ℤ → ℤ → Type 0
Hints reply x_term x_index x_len =
    (reply.x_term ≡ x_term) × (reply.x_index ≡ x_index) × (reply.x_len ≡ x_len)

get_elem?-inside :
    {A : Type 0} (xs : List A) (i : ℕ) (v : A) → get_elem? xs i ≡ some v → i < length xs
get_elem?-inside [] i v p = absurd cc
get_elem?-inside (x ∷ xs) zero v p = omega arith
get_elem?-inside (x ∷ xs) (suc i) v p = let h = get_elem?-inside xs i v p in omega (arith, h)

module _ {C : Type 0} (args : AppendEntriesArgs C) (log : Slots C) where
  -- The hints where the slot at the leader's last index does not agree: a log that is too short gives its length, a nil
  -- entry gives nothing, and an entry gives its term and the first index of that term.
  pub record Answers (reply : AppendEntriesReply) : Type 0 where
    pub short :
        length log ≤ args.last_log_index → Hints reply minus_one minus_one (pos (length log))
    pub nil :
        get_elem? log args.last_log_index ≡ some none → Hints reply minus_one minus_one minus_one
    pub other :
        (e : LogEntry C)
        → get_elem? log args.last_log_index ≡ some (some e)
        → (k : ℕ) × IsFirst (pos e.term) log k × Hints reply (pos e.term) (pos k) minus_one

  module _ (t : ℕ) (log' : Slots C) (same : log' ≡ log) where
    pub Answers-short :
        get_elem? log args.last_log_index ≡ none
        → Answers (failure t minus_one minus_one (pos (length log')))
    Answers-short p = record {
      short = λ _. (refl, refl, ap (λ l. pos (length l)) same);
      nil = λ q. absurd cc;
      other = λ e q. absurd cc;
    }

    pub Answers-nil :
        get_elem? log args.last_log_index ≡ some none
        → Answers (failure t minus_one minus_one minus_one)
    Answers-nil p = record {
      short = λ out. absurd (le-lt-absurd out (get_elem?-inside log args.last_log_index _ p));
      nil = λ _. (refl, refl, refl);
      other = λ e q. absurd cc;
    }

    first_index_found :
        (e : LogEntry C)
        → get_elem? log args.last_log_index ≡ some (some e)
        → (k : ℕ) × (first_index_for_term (pos e.term) log ≡ pos k) × IsFirst (pos e.term) log k
    first_index_found e p =
        let at : entry_at log args.last_log_index ≡ some e =
          entry_at-get_elem? log args.last_log_index ∙ ap (λ o. o >>= λ x. x) p in
        elim (first_index_for_term-IsFirst (pos e.term) log) [
          | inl there ↦ there
          | inr (q, absent) ↦ absurd (absent args.last_log_index e at refl)
        ]

    pub Answers-other :
        (e : LogEntry C)
        → get_elem? log args.last_log_index ≡ some (some e)
        → Answers (failure t (pos e.term) (first_index_for_term (pos e.term) log') minus_one)
    Answers-other e p = record {
      short = λ out. absurd (le-lt-absurd out (get_elem?-inside log args.last_log_index _ p));
      nil = λ q. absurd cc;
      other = λ e' q.
          let eq : e ≡ e' = some-cancel (some-cancel (sym p ∙ q)) in
          let (k, found, first) = first_index_found e p in
          rw (← eq)
            (k, first, (refl, ap (λ l. first_index_for_term (pos e.term) l) same ∙ found, refl));
    }

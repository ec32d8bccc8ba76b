-- ===== src/Jrnl/Replay/Twice.antt =====
-- jrnl/replay.go: a replay that was cut off and is done again has the effect of one replay.
use pp.Prelude.{
  ℕ, zero, suc, ◌≡◌, refl, sym, ◌∙◌, Bool, true, false, ◌||◌, List, [], ◌∷◌, take, ◌==◌, arith,
  Bool-cases, inl, inr,
}
use pp.Text.{Bytes}
use pp.Bio.Disk.{Block}
use pp.Bio.Local.{update}
use pp.Jrnl.Replay.State.{write_all}

-- Some write is to block `m`.
abbrev target : List Block → ℕ → Bool
target [] m = false
target (b ∷ bs) m = (b.nr == m) || target bs m

write_all-off :
    (bs : List Block) (f : ℕ → Bytes) (m : ℕ) → target bs m ≡ false → write_all bs f m ≡ f m
write_all-off [] f m h = refl
write_all-off (b ∷ bs) f m h = ground (arith, write_all-off bs (update f b.nr b.data_) m)

write_all-on :
    (bs : List Block) (f g : ℕ → Bytes) (m : ℕ)
    → target bs m ≡ true
    → write_all bs f m ≡ write_all bs g m
write_all-on [] f g m h = cc
write_all-on (b ∷ bs) f g m h = elim (Bool-cases (target bs m)) [
  | inl e ↦ write_all-on bs _ _ m e
  | inr e ↦
      write_all-off bs (update f b.nr b.data_) m e
      ∙ ground (arith, e)
      ∙ sym (write_all-off bs (update g b.nr b.data_) m e)
]

target-take : (k : ℕ) (bs : List Block) (m : ℕ) → target bs m ≡ false → target (take k bs) m ≡ false
target-take zero bs m h = refl
target-take (suc k) [] m h = refl
target-take (suc k) (b ∷ bs) m h = ground (arith, target-take k bs m)

-- Any number of the writes, and then all of them, have the effect of all of them.
pub write_all-take :
    (k : ℕ) (bs : List Block) (f : ℕ → Bytes) (m : ℕ)
    → write_all bs (write_all (take k bs) f) m ≡ write_all bs f m
write_all-take k bs f m = elim (Bool-cases (target bs m)) [
  | inl e ↦ write_all-on bs _ f m e
  | inr e ↦
      write_all-off bs (write_all (take k bs) f) m e
      ∙ write_all-off (take k bs) f m (target-take k bs m e)
      ∙ sym (write_all-off bs f m e)
]

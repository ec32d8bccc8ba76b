-- ===== src/Inode/Splice.antt =====
-- inode/iblock.go: replacing a part of a text that is made of parts.
use pp.Prelude.{
  ℕ, zero, suc, ◌+◌, ◌-◌, ◌≤◌, ◌≡◌, refl, sym, ap, ap₂, ◌∙◌, [], ◌∷◌, ◌++◌, append-nil, take, drop,
  take-append-drop, length, arith,
}
use pp.Text.{Bytes}
use pp.Inode.Chunk.{splice}

-- The beginning of a text is replaced.
over : Bytes → Bytes → Bytes
over d x = d ++ drop (length d) x

splice_start : (d x : Bytes) → splice 0 d x ≡ over d x
unfolding over
splice_start d x = ap (λ n. d ++ drop n x) {x = 0 + length d} {y = length d} (omega arith)

over-append :
    (d x y : Bytes) → over d (x ++ y) ≡ over (take (length x) d) x ++ over (drop (length x) d) y
unfolding over
over-append [] [] y = refl
over-append [] (e ∷ x) y = refl
over-append (c ∷ d) [] y = refl
over-append (c ∷ d) (e ∷ x) y = ap (λ l. c ∷ l) (over-append d x y)

splice-cons : (bo : ℕ) (c : ℕ) (d x : Bytes) → splice (suc bo) d (c ∷ x) ≡ c ∷ splice bo d x
splice-cons bo c d x = let e : suc bo + length d ≡ suc (bo + length d) = omega arith in rw e refl

-- What is replaced in a text of two parts, from a place in the first one on.
pub splice-append :
    (bo : ℕ) (d x y : Bytes)
    → bo ≤ length x
    → splice bo d (x ++ y)
      ≡ splice bo (take (length x - bo) d) x ++ splice 0 (drop (length x - bo) d) y
splice-append zero d x y h =
    let e : length x - 0 ≡ length x = omega arith in
    splice_start d (x ++ y)
    ∙ over-append d x y
    ∙ rw e (
        sym (
          ap₂ (λ p q. p ++ q) (splice_start (take (length x) d) x)
            (splice_start (drop (length x) d) y)))
splice-append (suc bo) d [] y h = absurd (omega (arith, h))
splice-append (suc bo) d (c ∷ x) y h =
    let e : suc (length x) - suc bo ≡ length x - bo = omega arith in
    splice-cons bo c d (x ++ y)
    ∙ ap (λ l. c ∷ l) (splice-append bo d x y (omega (arith, h)))
    ∙ rw e (
        ap (λ l. l ++ splice 0 (drop (length x - bo) d) y)
          (sym (splice-cons bo c (take (length x - bo) d) x)))

-- From a place behind the first part on.
pub splice-behind : (k : ℕ) (d x y : Bytes) → splice (length x + k) d (x ++ y) ≡ x ++ splice k d y
splice-behind k d [] y = ap (λ n. splice n d y) {x = 0 + k} {y = k} (omega arith)
splice-behind k d (c ∷ x) y =
    let e : suc (length x) + k ≡ suc (length x + k) = omega arith in
    ap (λ n. splice n d (c ∷ x ++ y)) e
    ∙ splice-cons (length x + k) c d (x ++ y)
    ∙ ap (λ l. c ∷ l) (splice-behind k d x y)

pub splice-nil : (bo : ℕ) (x : Bytes) → splice bo [] x ≡ x
splice-nil bo x =
    let e : bo + 0 ≡ bo = omega arith in
    rw e (ap (λ l. l ++ drop bo x) (append-nil (take bo x)) ∙ take-append-drop bo x)

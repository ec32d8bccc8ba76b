-- ===== src/Inode/Chunk.antt =====
-- inode/iblock.go: what `Writei` makes of one block.
use pp.Prelude.{
  ℕ, zero, suc, ◌+◌, ◌-◌, ◌≤◌, ◌<◌, ◌≡◌, refl, Bool, true, false, [], ◌++◌, take, drop, length, leb,
  ltb, if◌then◌else◌, arith, Bool-cases, inl, inr, ltb→le, leb→le, sym, ap, ◌∙◌, take_all, drop_all,
  append-nil, length-take,
}
use pp.Text.{Bytes}

abbrev pub block_size : ℕ
block_size = 4096

-- Some text is replaced from place `bo` on.
abbrev pub splice : ℕ → Bytes → Bytes → Bytes
splice bo data_ bdata = take bo bdata ++ data_ ++ drop (bo + length data_) bdata

-- The new text of a block, and the data that is left, from place `bo` on. A slice beyond the end is a panic;
-- the bounds under which none is are those of the lemma on it.
unfoldable pub write_chunk : ℕ → Bytes → Bytes → Bytes × Bytes
write_chunk zero data_ bdata =
    if ltb (length data_) 4096
    then (if ltb (length data_) (length bdata)
        then (data_ ++ drop (length data_) bdata, [])
        else (data_, []))
    else (take 4096 data_, drop 4096 data_)
write_chunk (suc b) data_ bdata =
    let bo = suc b in
    if ltb (4096 - bo) (length data_)
    then (take bo bdata ++ take (4096 - bo) data_, drop (4096 - bo) data_)
    else (if leb (length bdata) (bo + length data_)
        then (take bo bdata ++ data_, [])
        else (take bo bdata ++ data_ ++ drop (length data_ + bo) bdata, []))

-- A test that makes no difference.
then_same : {A : Type 0} (c : Bool) (x y : A) → (c ≡ false → y ≡ x) → (if c then x else y) ≡ x
then_same true x y h = refl
then_same false x y h = h refl

else_same : {A : Type 0} (c : Bool) (x y : A) → (c ≡ true → x ≡ y) → (if c then x else y) ≡ y
else_same true x y h = h refl
else_same false x y h = refl

-- What is beyond the end of a block.
whole : (p : Bytes) (n : ℕ) (bdata : Bytes) → length bdata ≤ n → p ++ drop n bdata ≡ p
whole p n bdata h = ap (λ x. p ++ x) (drop_all n bdata h) ∙ append-nil p

-- Data that fits.
fitting :
    (bo : ℕ) (data_ bdata : Bytes)
    → length data_ ≤ 4096 - bo
    → Path
        (Bytes × Bytes)
        (take bo bdata ++ data_ ++ drop (length data_ + bo) bdata, [])
        (splice bo (take (4096 - bo) data_) bdata, drop (4096 - bo) data_)
fitting bo data_ bdata h =
    let e : length data_ + bo ≡ bo + length data_ = omega arith in
    rw (take_all (4096 - bo) data_ h, drop_all (4096 - bo) data_ h, e) refl

from_start :
    (data_ bdata : Bytes)
    → length data_ ≤ 4096
    → Path
        (Bytes × Bytes)
        (data_ ++ drop (length data_) bdata, [])
        (splice 0 (take 4096 data_) bdata, drop 4096 data_)
from_start data_ bdata h =
    let e : 0 + length data_ ≡ length data_ = omega arith in
    rw (take_all 4096 data_ h, drop_all 4096 data_ h, e) refl

-- Data that fills the rest of a block of `n` bytes.
filling :
    (n bo : ℕ) (data_ bdata : Bytes)
    → bo ≤ n
    → n - bo ≤ length data_
    → length bdata ≤ n
    → take bo bdata ++ take (n - bo) data_ ≡ splice bo (take (n - bo) data_) bdata
filling n bo data_ bdata low long small = sym (
    whole (take bo bdata ++ take (n - bo) data_) (bo + length (take (n - bo) data_)) bdata
      (omega (arith, low, long, small, length-take (n - bo) data_)))

-- In a block of at most 4096 bytes and at a place in it or at its end, `Writei` replaces the text from that place on by as much of
-- the data as there is room for, and keeps the rest of the block and the rest of the data.
pub write_chunk-splice :
    (bo : ℕ) (data_ bdata : Bytes)
    → bo < block_size
    → bo ≤ length bdata
    → length bdata ≤ block_size
    → write_chunk bo data_ bdata
      ≡ (splice bo (take (block_size - bo) data_) bdata, drop (block_size - bo) data_)
unfolding write_chunk
write_chunk-splice zero data_ bdata low in_block small =
    elim (Bool-cases (ltb (length data_) 4096)) [
      | inl t ↦
          let fits : length data_ ≤ 4096 = ground arith in
          rw t (
            then_same {A = Bytes × Bytes} (ltb (length data_) (length bdata))
              (data_ ++ drop (length data_) bdata, []) (data_, [])
              (λ f. ap (λ x. (x, [])) (sym (whole data_ (length data_) bdata (ltb→le _ _ f))))
            ∙ from_start data_ bdata fits)
      | inr t ↦
          let long : 4096 ≤ length data_ = ltb→le _ _ t in
          rw t
            (ap (λ x. (x, drop 4096 data_)) (filling 4096 0 data_ bdata (omega arith) long small))
    ]
write_chunk-splice (suc b) data_ bdata low in_block small =
    elim (Bool-cases (ltb (4096 - suc b) (length data_))) [
      | inl t ↦
          let long : 4096 - suc b ≤ length data_ = ground arith in
          rw t (
            ap (λ x. (x, drop (4096 - suc b) data_))
              (filling 4096 (suc b) data_ bdata (omega (arith, low)) long small))
      | inr t ↦
          let fits : length data_ ≤ 4096 - suc b = ltb→le _ _ t in
          rw t (
            else_same {A = Bytes × Bytes} (leb (length bdata) (suc b + length data_))
              (take (suc b) bdata ++ data_, [])
              (take (suc b) bdata ++ data_ ++ drop (length data_ + suc b) bdata, [])
              (λ f.
                ap (λ x. (x, []))
                  (sym (
                    whole (take (suc b) bdata ++ data_) (length data_ + suc b) bdata
                      (omega (arith, leb→le _ _ f)))))
            ∙ fitting (suc b) data_ bdata fits)
    ]

-- ===== src/Balloc.antt =====
-- balloc/balloc.go and balloc/bitmap.go: allocation on the bitmap that was read. A bitmap is a list of bytes, 0 for a free
-- block.
pub mod Released
pub mod Blocks
pub mod Tests
use pp.Prelude.{
  ℕ, zero, suc, ◌+◌, ◌-◌, Bool, true, false, Option, none, some, List, [], ◌∷◌, length, get_elem?,
  set, ltb, leb, ◌==◌, if◌then◌else◌, ◌>>=◌, ◌>>◌, guard, not,
}

abbrev pub Bitmap : Type 0
Bitmap = List ℕ

-- Here the number is that of a byte which is there.
abbrev pub set_bit : Bitmap → ℕ → Bitmap
set_bit b nr = set b nr 1

abbrev pub clear_bit : Bitmap → ℕ → Bitmap
clear_bit b nr = set b nr 0

-- The first free block.
unfoldable pub find_free : Bitmap → Option ℕ
find_free [] = none
find_free (bit ∷ b) =
    let rest = find_free b in if bit == 0 then some 0 else (do i ← rest; some (suc i))

unfoldable pub next_block : ℕ → Option ℕ → (Bitmap → Bitmap × List ℕ) → Bitmap → Bitmap × List ℕ
next_block start none rest b = rest b
next_block start (some i) rest b = let r = rest (set_bit b i) in (r.0, (i + start) ∷ r.1)

-- `cnt` rounds; one that finds no free block adds nothing.
unfoldable pub alloc_bits : ℕ → ℕ → Bitmap → Bitmap × List ℕ
unfolding next_block
alloc_bits start zero b = (b, [])
alloc_bits start (suc cnt) b = next_block start (find_free b) (alloc_bits start cnt) b

-- `none` is `log.Fatal`: there were not enough free blocks.
unfoldable pub alloc_blocks : ℕ → ℕ → Bitmap → Option (Bitmap × List ℕ)
alloc_blocks start cnt b =
    let r = alloc_bits start cnt b in if ltb (length r.1) cnt then none else some r

-- `none` is a block before the data, one beyond the bitmap, or one that is free.
unfoldable pub relse_one : ℕ → ℕ → Bitmap → Option Bitmap
relse_one start bn b = if ltb bn start then none else (do
  bit ← get_elem? b (bn - start)
  if bit == 0 then none else some (clear_bit b (bn - start)))

unfoldable pub relse_blocks : ℕ → List ℕ → Bitmap → Option Bitmap
relse_blocks start [] b = some b
relse_blocks start (bn ∷ bns) b = do b' ← relse_one start bn b; relse_blocks start bns b'

-- ===== src/Balloc/Blocks.antt =====
-- balloc/balloc.go and balloc/bitmap.go: the bitmap's block, which a transaction reads and writes.
use pp.Prelude.{
  ℕ, zero, suc, ◌+◌, Bool, Option, none, some, List, [], ◌∷◌, replicate, if◌then◌else◌, ◌>>=◌,
}
use pp.Text.{Bytes}
use pp.Bio.Disk.{Block, Disk, bget, brelse}
use pp.Jrnl.Blocks.{end_jrnl}
use pp.Jrnl.Txn.{TxnHandle, write_block}
use pp.Balloc.{Bitmap, alloc_blocks, relse_blocks}

abbrev pub bitmap_block : ℕ
bitmap_block = end_jrnl + 1

-- A block that was never written stands for a bitmap with no block taken.
abbrev pub bitmap_of : Bytes → Bitmap
bitmap_of [] = replicate 4096 0
bitmap_of (c ∷ s) = c ∷ s

module _ {S : Type 0} (dsk : Disk S) where
  unfoldable pub get_bitmap : ℕ → S → Option (S × Bitmap)
  get_bitmap fuel s = do (s', blk) ← bget dsk fuel bitmap_block s; some (s', bitmap_of blk.data_)

  -- The last result is `false` for the error; the block is not released then.
  unfoldable pub update_and_relse_bitmap :
      ℕ → TxnHandle → Bitmap → S → Option (S × TxnHandle × Bool)
  update_and_relse_bitmap fuel t b s =
      let blk : Block = record { nr = bitmap_block; data_ = b } in
      do
        (s', t', written) ← write_block dsk fuel t blk s
        some (if written then (brelse dsk blk s').0 else s', t', written)

  -- A retry starts with the count that the first try counted down to 0.
  unfoldable pub alloc_in : ℕ → ℕ → TxnHandle → ℕ → S → Option (S × TxnHandle × List ℕ)
  alloc_in zero start_data t cnt s = none
  alloc_in (suc fuel) start_data t cnt s = do
    (s₁, btmp) ← get_bitmap (suc fuel) s
    (btmp', blks) ← alloc_blocks start_data cnt btmp
    (s₂, t', written) ← update_and_relse_bitmap (suc fuel) t btmp' s₁
    if written then some (s₂, t', blks) else alloc_in fuel start_data t' 0 s₂

  unfoldable pub relse_in : ℕ → ℕ → TxnHandle → List ℕ → S → Option (S × TxnHandle)
  relse_in zero start_data t bns s = none
  relse_in (suc fuel) start_data t bns s = do
    (s₁, btmp) ← get_bitmap (suc fuel) s
    btmp' ← relse_blocks start_data bns btmp
    (s₂, t', written) ← update_and_relse_bitmap (suc fuel) t btmp' s₁
    if written then some (s₂, t') else relse_in fuel start_data t' bns s₂

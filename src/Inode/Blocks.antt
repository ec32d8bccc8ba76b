-- ===== src/Inode/Blocks.antt =====
-- inode/iblock.go: reading and writing the blocks of an inode.
use pp.Prelude.{
  ℕ, ◌+◌, ◌-◌, ◌*◌, ◌/◌, ◌%◌, Bool, true, false, not, ◌&&◌, Option, none, some, List, [], ◌∷◌, ◌++◌,
  take, drop, length, leb, ltb, ◌==◌, if◌then◌else◌, ◌>>=◌,
}
use pp.Text.{Bytes}
use pp.Bio.Disk.{Block, Disk, bget, brelse}
use pp.Jrnl.Txn.{TxnHandle, write_block}
use pp.Balloc.Blocks.{alloc_in, relse_in}
use pp.Inode.{Inode, Coding, n_direct_blocks, relse, geti, enq_write}
use pp.Inode.Chunk.{block_size, write_chunk}

-- The division of floating point numbers is exact here: `b` is 4096, and sizes are below `2 ^ 53`.
abbrev pub sane_ceil : ℕ → ℕ → ℕ
sane_ceil a b = (a + b - 1) / b

-- What one round of a read takes.
abbrev pub to_read : ℕ → Bytes → ℕ
to_read count data_ = if ltb count (length data_) then count else length data_

-- A block that ends before place `bo`.
abbrev pub off_end : ℕ → Bytes → Bool
off_end bo data_ = ltb 0 bo && leb (length data_) bo

-- A write that is refused, before anything is changed.
abbrev pub refused : ℕ → ℕ → Inode → Bool
refused offset tb i =
    if leb n_direct_blocks (offset / 4096)
    then true
    else if ltb i.filesize offset && (not (offset == 0) && not (i.filesize == 0))
    then true
    else ltb (n_direct_blocks * block_size) (offset + tb)

module _ {S : Type 0} (dsk : Disk S) where
  -- The loop of `Readi`, over the addresses that are left; the last one ends it.
  unfoldable pub read_blocks : ℕ → List ℕ → ℕ → ℕ → S → Option (S × Bytes)
  read_blocks fuel [] bo count s = some (s, [])
  read_blocks fuel (a ∷ addrs) bo count s =
      let rest : ℕ → S → Option (S × Bytes) = λ n s'. read_blocks fuel addrs 0 n s' in
      if count == 0 then some (s, []) else (do
        (s₁, blk) ← bget dsk fuel a s
        let s₂ = (brelse dsk blk s₁).0
        let data_ = drop bo blk.data_
        let n = to_read count data_
        let more = do (s₃, res) ← rest (count - n) s₂; some (s₃, take n data_ ++ res)
        if off_end bo blk.data_ then some (s₂, []) else more)

  -- The loop of `Writei`. No address that is left, or a place behind the end of the block, is a panic.
  unfoldable pub write_blocks : ℕ → TxnHandle → List ℕ → ℕ → Bytes → S → Option (S × TxnHandle)
  write_blocks fuel t addrs bo [] s = some (s, t)
  write_blocks fuel t [] bo (c ∷ data_) s = none
  write_blocks fuel t (a ∷ addrs) bo (c ∷ data_) s = do
    let rest : Bytes → TxnHandle → S → Option (S × TxnHandle) =
        λ d t' s'. write_blocks fuel t' addrs 0 d s'
    (s₁, blk) ← bget dsk fuel a s
    let (bdata, left) = write_chunk bo (c ∷ data_) blk.data_
    let blk' : Block = record blk { data_ = bdata }
    let more = do
      (s₂, t', written) ← write_block dsk fuel t blk' s₁
      rest left t' (brelse dsk blk' s₂).0
    if ltb (length blk.data_) bo then none else more

  module _ (coding : Coding) where
    -- The inode is released at the end.
    unfoldable pub readi : ℕ → ℕ → ℕ → ℕ → S → Option (S × Bytes)
    unfolding read_blocks
    readi fuel inum offset count s = do
      (s₁, i) ← geti dsk coding fuel inum s
      let bn = offset / 4096
      let more = do
        (s₂, res) ← read_blocks fuel (drop bn i.addrs) (offset % 4096) count s₁
        some (relse dsk coding i s₂, res)
      if leb (length i.addrs) bn then some (relse dsk coding i s₁, []) else more

  module _ (coding : Coding) (start_data : ℕ) where
    -- `none` is `log.Fatal`, and the last result is `false` for the error.
    unfoldable pub increase_size :
        ℕ → Inode → TxnHandle → ℕ → S → Option (S × TxnHandle × Inode × Bool)
    increase_size fuel i t ns s =
        let added = sane_ceil ns block_size - sane_ceil i.filesize block_size in
        let grown = (do
          (s₁, t₁, blnl) ←
              if ltb 0 added then alloc_in dsk fuel start_data t added s else some (s, t, [])
          let i' : Inode = record i { addrs = i.addrs ++ blnl; filesize = ns }
          (s₂, t₂, written) ← enq_write dsk coding fuel i' t₁ s₁
          some (s₂, t₂, i', true)) in
        if leb ns i.filesize
        then none
        else if ltb n_direct_blocks (sane_ceil ns block_size)
        then some (s, t, i, false)
        else grown

    unfoldable pub truncate : ℕ → Inode → TxnHandle → S → Option (S × TxnHandle × Inode)
    truncate fuel i t s = do
      (s₁, t₁) ← relse_in dsk fuel start_data t i.addrs s
      let i' : Inode = record i { addrs = []; filesize = 0 }
      (s₂, t₂, written) ← enq_write dsk coding fuel i' t₁ s₁
      some (s₂, t₂, i')

    -- The number of bytes that were written, or `none` for an error.
    unfoldable pub writei : ℕ → TxnHandle → ℕ → ℕ → Bytes → S → Option (S × TxnHandle × Option ℕ)
    unfolding increase_size write_blocks
    writei fuel t inum offset data_ s = do
      (s₁, i) ← geti dsk coding fuel inum s
      let tb = length data_
      let more = do
        (s₂, t₂, i', grown) ←
            if ltb i.filesize (offset + tb)
            then increase_size fuel i t (offset + tb) s₁
            else some (s₁, t, i, true)
        (s₃, t₃) ← write_blocks fuel t₂ (drop (offset / 4096) i'.addrs) (offset % 4096) data_ s₂
        some (relse dsk coding i' s₃, t₃, some tb)
      if refused offset tb i then some (relse dsk coding i s₁, t, none) else more

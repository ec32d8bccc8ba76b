-- ===== src/Inode.antt =====
-- inode/inode.go and inode/encode.go: inodes, one to a block. Their encoding is that of the standard library.
pub mod Chunk
pub mod Blocks
pub mod Contents
pub mod Read
pub mod File
pub mod Splice
pub mod Chunks
pub mod Stored
pub mod Write
pub mod Lengths
pub mod Agree
pub mod Allocated
pub mod Tests
use pp.Prelude.{
  ℕ, zero, suc, ◌+◌, ◌-◌, Bool, true, false, not, ◌||◌, Option, none, some, List, [], ◌∷◌, leb,
  ◌==◌, if◌then◌else◌, ◌>>=◌,
}
use pp.Text.{Bytes}
use pp.Bio.Disk.{Block, BioError, ok, err_no_lock, Disk, bget, brenew, brelse}
use pp.Jrnl.Blocks.{end_jrnl}
use pp.Jrnl.Txn.{TxnHandle, write_block}

abbrev pub n_direct_blocks : ℕ
n_direct_blocks = 511

abbrev pub first_inode_addr : ℕ
first_inode_addr = end_jrnl + 2

abbrev pub num_inodes : ℕ
num_inodes = 16_384

abbrev pub end_inode : ℕ
end_inode = first_inode_addr + num_inodes + 1

pub data IType : Type 0 where
  dir file : IType

pub record Inode : Type 0 where
  pub serialnum : ℕ
  pub refcnt : ℕ
  pub filesize : ℕ
  pub addrs : List ℕ
  pub mode : IType

abbrev pub new_inode : ℕ → IType → Inode
new_inode k m = record { serialnum = k; refcnt = 1; filesize = 0; addrs = []; mode = m }

abbrev pub is_empty : Bytes → Bool
is_empty [] = true
is_empty (c ∷ s) = false

abbrev pub renewed : BioError → Bool
renewed ok = true
renewed err_no_lock = false

-- The encoding and its inverse.
pub record Coding : Type 0 where
  pub encode : Inode → Bytes
  pub i_decode : Bytes → Inode

module _ {S : Type 0} (dsk : Disk S) (coding : Coding) where
  abbrev pub block_of : Inode → Block
  block_of i = record { nr = i.serialnum + first_inode_addr; data_ = coding.encode i }

  -- The last result is `false` for the error.
  unfoldable pub enq_write : ℕ → Inode → TxnHandle → S → Option (S × TxnHandle × Bool)
  enq_write fuel i t s = write_block dsk fuel t (block_of i) s

  unfoldable pub relse : Inode → S → S
  relse i s = (brelse dsk (block_of i) s).0

  unfoldable pub renew : Inode → S → S × Bool
  renew i s = let r = brenew dsk (block_of i) s in (r.0, renewed r.1)

  -- `none` is `log.Fatal`.
  unfoldable pub probei : ℕ → ℕ → S → Option (S × Bool)
  probei fuel inum s = if leb num_inodes inum then none else (do
    (s₁, blk) ← bget dsk fuel (first_inode_addr + inum) s
    some ((brelse dsk blk s₁).0, not (is_empty blk.data_)))

  unfoldable pub geti : ℕ → ℕ → S → Option (S × Inode)
  geti fuel inum s = if leb num_inodes inum then none else (do
    (s₁, blk) ← bget dsk fuel (first_inode_addr + inum) s
    if is_empty blk.data_ then none else some (s₁, coding.i_decode blk.data_))

  -- The inode that is left, and `false` for the error.
  unfoldable pub free : ℕ → Inode → TxnHandle → S → Option (S × TxnHandle × Inode × Bool)
  free fuel i t s = if i.refcnt == 0 then none else (do
    let i' : Inode = record i { refcnt = i.refcnt - 1 }
    (s₁, t', written) ← enq_write fuel i' t s
    some (if written then relse i' s₁ else s₁, t', i', written))

  abbrev pub is_unused : Bytes → Bool
  is_unused text = is_empty text || (coding.i_decode text).refcnt == 0

  -- The inodes from number `k` on, `n` of them; `none` where none is free is `log.Fatal`.
  unfoldable pub alloc_from :
      ℕ
      → IType
      → TxnHandle
      → (TxnHandle → S → Option (S × TxnHandle × Inode))
      → ℕ
      → ℕ
      → S
      → Option (S × TxnHandle × Inode)
  alloc_from fuel mode t retry zero k s = none
  alloc_from fuel mode t retry (suc n) k s = do
    (s₁, blk) ← bget dsk fuel (first_inode_addr + k) s
    let ni = new_inode k mode
    let later = alloc_from fuel mode t retry n (suc k) (brelse dsk blk s₁).0
    let tried = do
      (s₂, t', written) ← enq_write fuel ni t s₁
      if written then some (s₂, t', ni) else retry t' s₂
    if is_unused blk.data_ then tried else later

  -- A full transaction is tried again.
  unfoldable pub alloci : ℕ → IType → TxnHandle → S → Option (S × TxnHandle × Inode)
  unfolding alloc_from
  alloci zero mode t s = none
  alloci (suc fuel) mode t s = alloc_from (suc fuel) mode t (alloci fuel mode) num_inodes 0 s

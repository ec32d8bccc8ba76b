-- ===== src/Inode/Allocated.antt =====
-- inode/inode.go: `Alloci` takes the first inode that is not used, and logs it.
use pp.Prelude.{
  ℕ, zero, suc, ◌+◌, ◌≤◌, ◌<◌, ◌≡◌, refl, sym, ap, ◌∙◌, true, false, Option, ◌==◌, arith, Returns,
  Bool-cases, inl, inr, subst, [], ◌∷◌, ◌≢◌, ◌⊎◌,
}
use pp.Text.{Bytes}
use pp.Bio.Disk.{Disk, brelse}
use pp.Bio.Local.{Sets, LocalDisk}
use pp.Jrnl.Blocks.{blk_per_sys, end_jrnl, get_log_segment_start}
use pp.Jrnl.Txn.{TxnHandle}
use pp.Jrnl.Txn.Written.{Loggable, LoggedAt, write_block-WroteBlock}
use pp.Jrnl.Setup.Atomic.{Idle}
use pp.Inode.{
  Inode, IType, Coding, new_inode, first_inode_addr, num_inodes, block_of, is_unused, enq_write,
  alloc_from, alloci,
}
use pp.Inode.Read.{Unchanged, get-release}

-- An inode with one reference and no block.
abbrev pub one_reference : ℕ → IType → Inode
one_reference k mode = record { serialnum = k; refcnt = 1; filesize = 0; addrs = []; mode = mode }

-- An inode is not used where its block is empty, or where it has no reference.
abbrev pub IsUnused : Coding → Bytes → Type 0
IsUnused coding text = (text ≡ []) ⊎ ((coding.i_decode text).refcnt ≡ 0)

abbrev pub IsUsed : Coding → Bytes → Type 0
IsUsed coding text = (text ≢ []) × ((coding.i_decode text).refcnt ≢ 0)

module _ {S : Type 0} {dsk : Disk S} (d : LocalDisk dsk) (coding : Coding) where
  -- An inode whose block is not held.
  abbrev pub IsFree : ℕ → S → Type 0
  IsFree k s = d.held s (first_inode_addr + k) ≡ false

  abbrev pub text_at : ℕ → S → Bytes
  text_at k s = d.content s (first_inode_addr + k)

  -- The new inode is logged, in the next block of the transaction, and nothing else is changed.
  pub record Allocated (t : TxnHandle) (k : ℕ) (mode : IType) (s : S) (r : S × TxnHandle × Inode)
      : Type 0 where
    pub inode : r.2 ≡ one_reference k mode
    pub handle : r.1 ≡ record t { offset = t.offset + 1 }
    pub log :
        LoggedAt d
          (get_log_segment_start t.blk_seg + t.offset)
          (record { nr = k + first_inode_addr; data_ = coding.encode (one_reference k mode) })
          s
          r.0

  -- From number `k` on, the first inode that is not used is number `j`; none of them is held, nor is the journal.
  pub record FirstUnused (k j : ℕ) (s : S) : Type 0 where
    pub idle : Idle d s
    pub free : (m : ℕ) → k ≤ m → m ≤ j → IsFree m s
    pub used : (m : ℕ) → k ≤ m → m < j → IsUsed coding (text_at m s)
    pub unused : IsUnused coding (text_at j s)

  IsUnused-tested : (text : Bytes) → IsUnused coding text → is_unused dsk coding text ≡ true
  IsUnused-tested [] h = refl
  IsUnused-tested (c ∷ text) (inl e) = absurd cc
  IsUnused-tested (c ∷ text) (inr e) = ground (arith, e)

  IsUsed-tested : (text : Bytes) → IsUsed coding text → is_unused dsk coding text ≡ false
  IsUsed-tested [] h = absurd (h.0 refl)
  IsUsed-tested (c ∷ text) (ne, r) = ground (arith, r)

  FirstUnused-Unchanged :
      (k j : ℕ) (s s' : S)
      → j < num_inodes
      → Unchanged d s s'
      → FirstUnused k j s
      → FirstUnused (suc k) j s'
  FirstUnused-Unchanged k j s s' low (c, h) first = record {
    idle = record {
      sb = h _ (omega arith) ∙ first.idle.sb;
      log = λ m i. h m (omega (arith, i)) ∙ first.idle.log m i;
    };
    free = λ m a b. h _ (omega (arith, b, low)) ∙ first.free m (omega (arith, a)) b;
    used = λ m a b.
        subst (IsUsed coding) (sym (c _ (omega (arith, b, low))))
          (first.used m (omega (arith, a)) b);
    unused = subst (IsUnused coding) (sym (c _ (omega (arith, low)))) first.unused;
  }

  Idle-taken :
      (k : ℕ) (s s' : S)
      → Sets (d.held s) (first_inode_addr + k) true (d.held s')
      → Idle d s
      → Idle d s'
  Idle-taken k s s' h idle = record {
    sb =
        let other : (first_inode_addr + k == 2) ≡ false = ground arith in
        h 2 (omega arith) ∙ rw other idle.sb;
    log = λ m i.
        let other : (first_inode_addr + k == m) ≡ false = ground (arith, i) in
        h m (omega (arith, i)) ∙ rw other (idle.log m i);
  }

  -- The inode in front is the one.
  alloc_from-here :
      (fuel n j : ℕ) (mode : IType) (t : TxnHandle)
      (retry : TxnHandle → S → Option (S × TxnHandle × Inode)) (s : S)
      → j < num_inodes
      → FirstUnused j j s
      → t.offset < blk_per_sys
      → get_log_segment_start t.blk_seg + t.offset < end_jrnl
      → Loggable (block_of dsk coding (new_inode j mode))
      → Returns (alloc_from dsk coding (suc fuel) mode t retry (suc n) j s) (Allocated t j mode s)
  unfolding alloc_from enq_write
  alloc_from-here fuel n j mode t retry s low first room seg loggable =
      let ((s₁, b), e, (eb, c, h)) =
        d.get fuel (first_inode_addr + j) s (omega (arith, low))
          (first.free j (omega arith) (omega arith)) in
      let q : is_unused dsk coding b.data_ ≡ true =
        ap (λ x. is_unused dsk coding x.data_) eb ∙ IsUnused-tested (text_at j s) first.unused in
      let ((s₂, t', done), e₂, (et, ed, (idle, holds, same), locks)) =
        write_block-WroteBlock d fuel t (block_of dsk coding (new_inode j mode)) s₁ room seg
          loggable (Idle-taken j s s₁ h first.idle) in
      (
        (s₂, t', new_inode j mode),
        rw (e, q, e₂, ed) refl,
        record { inode = refl; handle = et; log = (idle, holds, λ m le ne. same m le ne ∙ c m le) },
      )

  alloc_from-Allocated :
      (fuel n k j : ℕ) (mode : IType) (t : TxnHandle)
      (retry : TxnHandle → S → Option (S × TxnHandle × Inode)) (s : S)
      → k ≤ j
      → j < k + n
      → j < num_inodes
      → FirstUnused k j s
      → t.offset < blk_per_sys
      → get_log_segment_start t.blk_seg + t.offset < end_jrnl
      → Loggable (block_of dsk coding (new_inode j mode))
      → Returns (alloc_from dsk coding (suc fuel) mode t retry n k s) (Allocated t j mode s)
  unfolding alloc_from
  alloc_from-Allocated fuel zero k j mode t retry s low high small first room seg loggable =
      absurd (omega (arith, low, high))
  alloc_from-Allocated fuel (suc n) k j mode t retry s low high small first room seg loggable =
      elim (Bool-cases (k == j)) [
        | inl e ↦
            let same : j ≡ k = ground arith in
            subst
              (λ m.
                Returns (alloc_from dsk coding (suc fuel) mode t retry (suc n) m s)
                  (Allocated t j mode s))
              same
              (alloc_from-here fuel n j mode t retry s small
                (subst (λ m. FirstUnused m j s) (sym same) first) room seg loggable)
        | inr e ↦
            let behind : k < j = ground (arith, low) in
            let ((s₁, b), g, (eb, u)) =
              get-release d fuel (first_inode_addr + k) s (omega (arith, behind, small))
                (first.free k (omega arith) low) in
            let q : is_unused dsk coding b.data_ ≡ false =
              ap (λ x. is_unused dsk coding x.data_) eb
              ∙ IsUsed-tested (text_at k s) (first.used k (omega arith) behind) in
            let s₂ = (brelse dsk b s₁).0 in
            let (r, g', a) =
              alloc_from-Allocated fuel n (suc k) j mode t retry s₂ (omega (arith, behind))
                (omega (arith, high)) small (FirstUnused-Unchanged k j s s₂ small u first) room seg
                loggable in
            (
              r,
              rw (g, q) g',
              record {
                inode = a.inode;
                handle = a.handle;
                log = (a.log.0, a.log.1, λ m le ne. a.log.2 m le ne ∙ u.0 m le);
              },
            )
      ]

  -- On a disk of one client, where no lock of the journal and of the inodes up to the first unused one is held, a
  -- transaction with room, and where the encoding of a new inode has no slash, `Alloci` does not fail: it gives the first
  -- inode whose block is empty or that has no reference, with its number, one reference and no block, and logs it in the next block of the transaction;
  -- no other block is changed.
  pub alloci-Allocated :
      (fuel j : ℕ) (mode : IType) (t : TxnHandle) (s : S)
      → j < num_inodes
      → FirstUnused 0 j s
      → t.offset < blk_per_sys
      → get_log_segment_start t.blk_seg + t.offset < end_jrnl
      → Loggable
          (record { nr = j + first_inode_addr; data_ = coding.encode (one_reference j mode) })
      → Returns (alloci dsk coding (suc fuel) mode t s) (Allocated t j mode s)
  unfolding alloci
  alloci-Allocated fuel j mode t s small first room seg loggable =
      alloc_from-Allocated fuel num_inodes 0 j mode t (alloci dsk coding fuel mode) s (omega arith)
        (omega (arith, small)) small first room seg loggable

-- ===== src/Fs/Transacted.antt =====
-- jrnl/txn.go and inode/iblock.go: a transaction that writes inside a file, from its beginning to its end.
use pp.Prelude.{ℕ, suc, ◌*◌, ◌≤◌, ◌≡◌, refl, ap, ◌∙◌, some, length, arith}
use pp.Text.{Bytes}
use pp.Bio.Disk.{Disk}
use pp.Bio.Local.{LocalDisk}
use pp.Jrnl.Blocks.{sb_nr, blk_per_sys, parse_sb}
use pp.Jrnl.Txn.{TxnHandle, begin_transaction}
use pp.Jrnl.Txn.Begun.{begin_transaction-Begun}
use pp.Jrnl.Setup.Atomic.{Idle}
use pp.Jrnl.Close.{end_transaction}
use pp.Jrnl.Close.Atomic.{no_segments}
use pp.Inode.{Inode, Coding}
use pp.Inode.Blocks.{writei}
use pp.Inode.Agree.{Agree, Writable-Agree}
use pp.Inode.Write.{Writable, writei-Written}
use pp.Fs.Ended.{Stored, Stored-Agree, handle_at, end_transaction-Stored}

module _ {S : Type 0} {dsk : Disk S} (d : LocalDisk dsk) (coding : Coding) (start_data : ℕ) where
  -- The three calls, the states between them, and what is stored.
  pub record Transacted (fuel inum offset : ℕ) (data_ : Bytes) (i : Inode) (s : S) : Type 0 where
    pub first : S
    pub second : S
    pub third : S
    pub handle : TxnHandle
    pub begun : begin_transaction dsk (suc fuel) s ≡ some (first, handle_at 0)
    pub written :
        writei dsk coding start_data (suc fuel) (handle_at 0) inum offset data_ first
        ≡ some (second, handle, some (length data_))
    pub closed : end_transaction dsk (suc fuel) handle second ≡ some (third, tt)
    pub stored : Stored d coding start_data inum offset data_ i s third

  pub writei-Transacted :
      (fuel n inum offset : ℕ) (data_ : Bytes) (i : Inode) (s : S)
      → 2 * blk_per_sys ≤ suc fuel
      → Writable d coding start_data inum offset data_ i s
      → Idle d s
      → parse_sb (record { nr = sb_nr; data_ = d.content s sb_nr }) ≡ no_segments n
      → Transacted fuel inum offset data_ i s
  writei-Transacted fuel n inum offset data_ i s enough w idle p =
      let ((s₁, t), e, (q, idle₁, c, h)) =
        begin_transaction-Begun d fuel (no_segments n) 0 s idle p refl
          (record { free = refl; before = λ j c lt q. absurd (omega (arith, lt)) }) in
      let same : Agree (d.content s) (d.content s₁) = λ m j. c m j.1 ∙ ground (arith, j.0) in
      let w₁ = Writable-Agree d coding start_data inum offset data_ i s s₁ same h w in
      let ((s₂, t₂, cnt), e₂, wr) =
        writei-Written d coding start_data fuel inum offset 3 data_ i (handle_at 0) s₁ w₁ idle₁ refl
          (omega arith) (omega arith) in
      let ((s₃, u), e₃, st) =
        end_transaction-Stored d coding start_data fuel n inum offset data_ i t₂ s₁ s₂ enough w₁
          (c sb_nr (omega arith)) wr.log wr.locks in
      record {
        first = s₁;
        second = s₂;
        third = s₃;
        handle = t₂;
        begun = e ∙ ap (λ x. some (s₁, x)) q;
        written = e₂ ∙ ap (λ x. some (s₂, t₂, x)) wr.count;
        closed = e₃;
        stored = Stored-Agree d coding start_data inum offset data_ i s s₁ s₃ w.plain same h st;
      }

-- ===== src/Inode/Write.antt =====
-- inode/iblock.go: a write inside a file logs the spliced blocks.
use pp.Prelude.{
  ℕ, suc, ◌+◌, ◌*◌, ◌/◌, ◌%◌, ◌≤◌, ◌<◌, ◌≡◌, refl, ap, ◌∙◌, false, Option, some, List, [], ◌∷◌,
  drop, length, length-drop, ltb, leb, ◌==◌, if◌then◌else◌, arith, Returns,
}
use pp.Text.{Bytes, Lacks}
use pp.Bio.Disk.{Block, Disk, brelse}
use pp.Bio.Local.{Same, LocalDisk}
use pp.Jrnl.Blocks.{slash, blk_per_sys, end_jrnl, get_log_segment_start}
use pp.Jrnl.Txn.{TxnHandle}
use pp.Jrnl.Txn.Written.{lock_back}
use pp.Jrnl.Replay.State.{SameLog, Holds-SameLog}
use pp.Jrnl.Setup.Atomic.{Idle}
use pp.Jrnl.Close.Whole.{Unmarked, Wrote}
use pp.Inode.{Inode, Coding, n_direct_blocks, first_inode_addr, block_of, relse, geti}
use pp.Inode.Chunk.{block_size}
use pp.Inode.Blocks.{refused, writei}
use pp.Inode.Contents.{text, Full, Full-drop, Apart, drop-text, length-text}
use pp.Inode.Chunks.{chunks}
use pp.Inode.Read.{AllFree-drop}
use pp.Inode.File.{Readable, geti-Got, AllFree-taken, offset-parts}
use pp.Inode.Stored.{
  Plain, Plain-drop, length-chunks, Idle-Same, Idle-taken, write_blocks-StoredAll,
}

Unmarked-SameLog :
    (f g : ℕ → Bytes) (lbn : ℕ) (bs : List Block)
    → SameLog f g
    → Unmarked f lbn bs
    → Unmarked g lbn bs
Unmarked-SameLog f g lbn [] same h = tt
Unmarked-SameLog f g lbn (b ∷ bs) same ((j, n, h), t) =
    ((j, n, Holds-SameLog f g lbn b false same j h), Unmarked-SameLog f g (suc lbn) bs same t)

module _ {S : Type 0} {dsk : Disk S} (d : LocalDisk dsk) (coding : Coding) (start_data : ℕ) where
  -- A write of `data_` at `offset` that lies in the file, and that the journal can log.
  pub record Writable (inum offset : ℕ) (data_ : Bytes) (i : Inode) (s : S) : Type 0 where
    pub readable : Readable d coding inum i s
    pub apart : Apart i.addrs
    pub plain : Plain (d.content s) i.addrs
    pub slashless : Lacks slash data_
    pub size : i.filesize ≡ length (text (d.content s) i.addrs)
    pub some_data : 0 < length data_
    pub inside : offset + length data_ ≤ length (text (d.content s) i.addrs)
    pub short : length i.addrs ≤ blk_per_sys

  -- The blocks of the write.
  abbrev pub blocks_of : ℕ → Bytes → Inode → S → List Block
  blocks_of offset data_ i s =
      chunks (d.content s) (drop (offset / 4096) i.addrs) (offset % 4096) data_

  Wrote-Same :
      (lbn : ℕ) (bs : List Block) (t : TxnHandle) (s s₁ s₃ : S) (r : S × TxnHandle)
      → Same (d.content s) (d.content s₁)
      → Same (d.content r.0) (d.content s₃)
      → Idle d s₃
      → Wrote d lbn bs t s₁ r
      → Wrote d lbn bs t s (s₃, r.1)
  Wrote-Same lbn bs t s s₁ s₃ r c c' idle w = record {
    handle = w.handle;
    idle = idle;
    log =
        Unmarked-SameLog (d.content r.0) (d.content s₃) lbn bs
          (λ m low high. c' m (omega (arith, high))) w.log;
    others = λ m le. (
      λ lo. c' m le ∙ (w.others m le).0 lo ∙ c m le,
      λ hi. c' m le ∙ (w.others m le).1 hi ∙ c m le,
    );
  }

  pub block_below :
      (offset : ℕ) (data_ : Bytes) (i : Inode) (f : ℕ → Bytes)
      → Full f i.addrs
      → 0 < length data_
      → offset + length data_ ≤ length (text f i.addrs)
      → offset / 4096 < length i.addrs
  block_below offset data_ i f full more inside =
      omega (arith, more, inside, length-text f i.addrs full)

  not_refused :
      (inum offset : ℕ) (data_ : Bytes) (i : Inode) (s : S)
      → Writable inum offset data_ i s
      → refused offset (length data_) i ≡ false
  not_refused inum offset data_ i s w =
      let low = block_below offset data_ i (d.content s) w.readable.full w.some_data w.inside in
      let len = length-text (d.content s) i.addrs w.readable.full in
      let a = w.short in
      let b = w.size in
      let c = w.inside in
      let one : leb n_direct_blocks (offset / 4096) ≡ false = ground (arith, low, a) in
      let two : ltb i.filesize offset ≡ false = ground (arith, b, c) in
      let three : ltb (n_direct_blocks * block_size) (offset + length data_) ≡ false =
        ground (arith, len, c, a) in
      rw (one, two, three) refl

  -- The data fits behind its place in the first block.
  pub place-fits :
      (inum offset : ℕ) (data_ : Bytes) (i : Inode) (s : S)
      → Writable inum offset data_ i s
      → offset % 4096 + length data_ ≤ length (text (d.content s) (drop (offset / 4096) i.addrs))
  place-fits inum offset data_ i s w =
      let f = d.content s in
      let ok = w.readable in
      let rest = drop (offset / 4096) i.addrs in
      let at : drop offset (text f i.addrs) ≡ drop (offset % 4096) (text f rest) =
        ap (λ n. drop n (text f i.addrs)) (offset-parts d coding offset)
        ∙ drop-text f (offset / 4096) (offset % 4096) i.addrs ok.full
            (block_below offset data_ i f ok.full w.some_data w.inside) in
      omega (
        arith,
        ap length at,
        length-drop offset (text f i.addrs),
        length-drop (offset % 4096) (text f rest),
        w.inside,
        w.some_data,
      )

  -- The write was logged, and no lock is different.
  pub record Written (offset : ℕ) (data_ : Bytes) (i : Inode) (lbn : ℕ) (t : TxnHandle) (s : S)
      (r : S × TxnHandle × Option ℕ) : Type 0 where
    pub count : r.2 ≡ some (length data_)
    pub log : Wrote d lbn (blocks_of offset data_ i s) t s (r.0, r.1)
    pub locks : Same (d.held s) (d.held r.0)

  pub writei-Written :
      (fuel inum offset lbn : ℕ) (data_ : Bytes) (i : Inode) (t : TxnHandle) (s : S)
      → Writable inum offset data_ i s
      → Idle d s
      → t.offset ≡ 0
      → lbn ≡ get_log_segment_start t.blk_seg
      → lbn + blk_per_sys ≤ end_jrnl
      → Returns
          (writei dsk coding start_data (suc fuel) t inum offset data_ s)
          (Written offset data_ i lbn t s)
  unfolding writei relse
  writei-Written fuel inum offset lbn data_ i t s w idle new pos low =
      let ok = w.readable in
      let ((s₁, i'), e, (same, c, h)) = geti-Got d coding fuel inum i s ok in
      let g : geti dsk coding (suc fuel) inum s ≡ some (s₁, i) = e ∙ ap (λ x. some (s₁, x)) same in
      let f = d.content s in
      let bn = offset / 4096 in
      let rest = drop bn i.addrs in
      let no = not_refused inum offset data_ i s w in
      let stays : ltb i.filesize (offset + length data_) ≡ false =
        let a = w.size in let b = w.inside in ground (arith, a, b) in
      let few = length-chunks f rest (offset % 4096) data_ in
      let fewer = length-drop bn i.addrs in
      let idle₁ =
        Idle-taken d (first_inode_addr + inum) s s₁ (omega arith, omega (arith, ok.below)) h idle in
      let fits = place-fits inum offset data_ i s w in
      let ((s₂, t₂), e₂, (wrote, locks)) =
        write_blocks-StoredAll d fuel lbn (offset % 4096) f t rest data_ s₁ (omega arith)
          (omega (arith, new, few, fewer, w.short)) (omega (arith, new, pos))
          (omega (arith, low, few, fewer, w.short)) (Full-drop f bn i.addrs ok.full) fits
          (Plain-drop f bn i.addrs w.plain) w.slashless
          (AllFree-drop d s₁ bn i.addrs
            (AllFree-taken d coding s s₁ (first_inode_addr + inum) i.addrs h ok.others ok.blocks))
          idle₁ (λ m a. c m a.1) in
      let b = block_of dsk coding i in
      let (c', h') = d.relse b s₂ (omega (arith, ok.below, ok.serial)) in
      let back : Same (d.held s) (d.held (brelse dsk b s₂).0) = λ m le.
        h' m le
        ∙ ap (λ x. if b.nr == m then false else x) (locks m le ∙ h m le)
        ∙ lock_back (d.held s) b.nr (first_inode_addr + inum) m (omega (arith, ok.serial))
            ok.free in
      (
        (relse dsk coding i s₂, t₂, some (length data_)),
        rw (g, no, stays, e₂) refl,
        record {
          count = refl;
          log =
              Wrote-Same lbn (blocks_of offset data_ i s) t s s₁ (brelse dsk b s₂).0 (s₂, t₂) c c'
                (Idle-Same d s (brelse dsk b s₂).0 back idle) wrote;
          locks = back;
        },
      )

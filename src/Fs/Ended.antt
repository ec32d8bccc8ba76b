-- ===== src/Fs/Ended.antt =====
-- jrnl/txn.go and inode/iblock.go: the end of a transaction that writes inside a file.
use pp.Prelude.{
  ℕ, zero, suc, ◌+◌, ◌*◌, ◌/◌, ◌%◌, ◌≤◌, ◌<◌, ◌≡◌, refl, sym, ap, subst, ◌∙◌, some, List, [], ◌∷◌,
  drop, length, length-drop, arith, Returns,
}
use pp.Text.{Bytes}
use pp.Bio.Disk.{Block, Disk}
use pp.Bio.Local.{Same, StillFree, LocalDisk}
use pp.Jrnl.Blocks.{sb_nr, blk_per_sys, parse_sb}
use pp.Jrnl.Txn.{TxnHandle}
use pp.Jrnl.Replay.Committed.{sb_text}
use pp.Jrnl.Replay.State.{IsData, write_all}
use pp.Jrnl.Setup.Atomic.{Idle}
use pp.Jrnl.Close.{end_transaction}
use pp.Jrnl.Close.Whole.{AllLoggable, Wrote}
use pp.Jrnl.Close.Atomic.{no_segments, first_taken, closed-Atomic}
use pp.Inode.{Inode, Coding, first_inode_addr, is_empty}
use pp.Inode.Chunk.{splice}
use pp.Inode.Contents.{text, NotAmong, NotAmong-drop}
use pp.Inode.Chunks.{chunks, write_all-chunks, text-spliced}
use pp.Inode.Read.{AllFree}
use pp.Inode.File.{Readable, offset-parts}
use pp.Inode.Stored.{Plain, Plain-drop, length-chunks, chunks-AllLoggable}
use pp.Inode.Write.{Writable, blocks_of, block_below}
use pp.Inode.Agree.{Agree, text-Agree, Full-Agree}
use pp.Inode.Lengths.{Full-written}
use pp.Inode.Write.{place-fits}

-- Data for a place in the file makes a block at least.
chunks-some :
    (f : ℕ → Bytes) (bn : ℕ) (addrs : List ℕ) (bo : ℕ) (data_ : Bytes)
    → bn < length addrs
    → 0 < length data_
    → (b : Block) × (bs : List Block) × (chunks f (drop bn addrs) bo data_ ≡ b ∷ bs)
chunks-some f bn [] bo data_ h more = absurd (omega (arith, h))
chunks-some f bn (a ∷ addrs) bo [] h more = absurd (omega (arith, more))
chunks-some f zero (a ∷ addrs) bo (c ∷ data_) h more = (_, _, refl)
chunks-some f (suc bn) (a ∷ addrs) bo (c ∷ data_) h more =
    chunks-some f bn addrs bo (c ∷ data_) (omega (arith, h)) more

-- The handle of the transaction, when it begins and when it ends.
abbrev pub handle_at : ℕ → TxnHandle
handle_at k = record { blk_seg = 0; offset = k }

module _ {S : Type 0} {dsk : Disk S} (d : LocalDisk dsk) (coding : Coding) (start_data : ℕ) where
  -- The bytes stand in the file from `offset` on, and the other blocks behind the journal are kept.
  pub record Stored (inum offset : ℕ) (data_ : Bytes) (i : Inode) (s s' : S) : Type 0 where
    pub contents : text (d.content s') i.addrs ≡ splice offset data_ (text (d.content s) i.addrs)
    pub others : (m : ℕ) → IsData m → NotAmong m i.addrs → d.content s' m ≡ d.content s m
    pub idle : Idle d s'
    pub superblock : parse_sb (record { nr = sb_nr; data_ = d.content s' sb_nr }) ≡ no_segments 999
    pub still : StillFree (d.held s) (d.held s')
    pub readable : Readable d coding inum i s'

  AllFree-still :
      (s s' : S) (addrs : List ℕ)
      → StillFree (d.held s) (d.held s')
      → AllFree d s addrs
      → AllFree d s' addrs
  AllFree-still s s' [] still free = tt
  AllFree-still s s' (a ∷ addrs) still (le, f, free) =
      (le, still a le f, AllFree-still s s' addrs still free)

  -- The file can be read then.
  Readable-stored :
      (inum offset : ℕ) (data_ : Bytes) (i : Inode) (s s' : S)
      → Writable d coding start_data inum offset data_ i s
      → Agree
          (write_all (blocks_of d coding start_data offset data_ i s) (d.content s))
          (d.content s')
      → StillFree (d.held s) (d.held s')
      → Readable d coding inum i s'
  Readable-stored inum offset data_ i s s' w all still =
      let ok = w.readable in
      let f = d.content s in
      let g = write_all (blocks_of d coding start_data offset data_ i s) f in
      let bn = offset / 4096 in
      let at = first_inode_addr + inum in
      let is_data : IsData at = (omega arith, omega (arith, ok.below)) in
      let is : d.content s' at ≡ f at =
        all at is_data
        ∙ write_all-chunks f f at (offset % 4096) data_ (drop bn i.addrs)
            (NotAmong-drop at bn i.addrs ok.others) in
      let fits = place-fits d coding start_data inum offset data_ i s w in
      record {
        below = ok.below;
        there = ap is_empty is ∙ ok.there;
        decoded = ap coding.i_decode is ∙ ok.decoded;
        serial = ok.serial;
        free = still at is_data.1 ok.free;
        blocks = AllFree-still s s' i.addrs still ok.blocks;
        others = ok.others;
        full =
            Full-Agree f g (d.content s') i.addrs all w.plain
              (Full-written f bn (offset % 4096) i.addrs data_ (omega arith) ok.full fits);
      }

  -- Blocks behind the journal that are as after the write.
  Stored-all :
      (inum offset : ℕ) (data_ : Bytes) (i : Inode) (s s' : S)
      → Writable d coding start_data inum offset data_ i s
      → Agree
          (write_all (blocks_of d coding start_data offset data_ i s) (d.content s))
          (d.content s')
      → Idle d s'
      → parse_sb (record { nr = sb_nr; data_ = d.content s' sb_nr }) ≡ no_segments 999
      → StillFree (d.held s) (d.held s')
      → Stored inum offset data_ i s s'
  Stored-all inum offset data_ i s s' w all idle sb still =
      let f = d.content s in
      let bn = offset / 4096 in
      let bo = offset % 4096 in
      let parts = offset-parts d coding offset in
      let below =
        block_below d coding start_data offset data_ i f w.readable.full w.some_data w.inside in
      record {
        contents =
            text-Agree f (write_all (blocks_of d coding start_data offset data_ i s) f)
              (d.content s') i.addrs w.plain all
            ∙ text-spliced f bn bo i.addrs data_ (omega arith) below w.readable.full w.apart
                (omega (arith, parts, w.inside))
            ∙ ap (λ k. splice k data_ (text f i.addrs)) (sym parts);
        others = λ m j no.
            all m j
            ∙ write_all-chunks f f m bo data_ (drop bn i.addrs) (NotAmong-drop m bn i.addrs no);
        idle = idle;
        superblock = sb;
        still = still;
        readable = Readable-stored inum offset data_ i s s' w all still;
      }

  -- The end of the transaction, when the blocks are logged.
  pub end_transaction-Stored :
      (fuel n inum offset : ℕ) (data_ : Bytes) (i : Inode) (t : TxnHandle) (s s₂ : S)
      → 2 * blk_per_sys ≤ suc fuel
      → Writable d coding start_data inum offset data_ i s
      → d.content s sb_nr ≡ sb_text (first_taken n)
      → Wrote d 3 (blocks_of d coding start_data offset data_ i s) (handle_at 0) s (s₂, t)
      → Same (d.held s) (d.held s₂)
      → Returns (end_transaction dsk (suc fuel) t s₂) (λ r. Stored inum offset data_ i s r.0)
  end_transaction-Stored fuel n inum offset data_ i t s s₂ enough w sb wrote locks =
      let f = d.content s in
      let bn = offset / 4096 in
      let rest = drop bn i.addrs in
      let below =
        block_below d coding start_data offset data_ i f w.readable.full w.some_data w.inside in
      let (b, bs, are) = chunks-some f bn i.addrs (offset % 4096) data_ below w.some_data in
      let log : Wrote d 3 (b ∷ bs) (handle_at 0) s (s₂, t) =
        subst (λ l. Wrote d 3 l (handle_at 0) s (s₂, t)) are wrote in
      let loggable : AllLoggable (b ∷ bs) = subst AllLoggable are (
        chunks-AllLoggable f rest (offset % 4096) data_ (Plain-drop f bn i.addrs w.plain)
          w.slashless) in
      let short : suc (length bs) ≤ blk_per_sys = omega (
        arith,
        ap length are,
        length-chunks f rest (offset % 4096) data_,
        length-drop bn i.addrs,
        w.short,
      ) in
      let (r, e, ((idle, all, empty), still)) =
        closed-Atomic d fuel n b bs s s₂ enough short loggable log.idle log.log
          ((log.others sb_nr (omega arith)).0 (omega arith) ∙ sb)
          (λ m j. (log.others m j.1).1 (omega (arith, j.0, short))) in
      let handle : t ≡ handle_at (suc (length bs)) =
        log.handle ∙ ap handle_at {x = 0 + suc (length bs)} {y = suc (length bs)} (omega arith) in
      (
        r,
        subst (λ x. end_transaction dsk (suc fuel) x s₂ ≡ some r) (sym handle) e,
        Stored-all inum offset data_ i s r.0 w
            (λ m j. all m j ∙ ap (λ l. write_all l f m) (sym are)) idle empty
            (λ m le z. still m le (locks m le ∙ z)),
      )

  -- A transaction's beginning has no part in what is stored.
  pub Stored-Agree :
      (inum offset : ℕ) (data_ : Bytes) (i : Inode) (s s₁ s' : S)
      → Plain (d.content s) i.addrs
      → Agree (d.content s) (d.content s₁)
      → Same (d.held s) (d.held s₁)
      → Stored inum offset data_ i s₁ s'
      → Stored inum offset data_ i s s'
  Stored-Agree inum offset data_ i s s₁ s' plain same h st = record {
    contents =
        st.contents
        ∙ ap (splice offset data_)
            (text-Agree (d.content s) (d.content s) (d.content s₁) i.addrs plain same);
    others = λ m j no. st.others m j no ∙ same m j;
    idle = st.idle;
    superblock = st.superblock;
    still = λ m le z. st.still m le (h m le ∙ z);
    readable = st.readable;
  }

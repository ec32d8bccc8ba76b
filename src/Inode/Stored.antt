-- ===== src/Inode/Stored.antt =====
-- inode/iblock.go: the loop of `Writei` logs the spliced blocks.
use pp.Prelude.{
  ℕ, zero, suc, ◌+◌, ◌-◌, ◌≤◌, ◌<◌, ◌≡◌, refl, sym, ap, subst, ◌∙◌, true, false, some, List, [],
  ◌∷◌, ◌++◌, take, drop, length, ltb, ◌==◌, if◌then◌else◌, arith, Returns,
}
use pp.Text.{Bytes, Lacks, Lacks-append}
use pp.Bio.Disk.{Block, Disk, bget, brelse}
use pp.Bio.Local.{Same, Sets, LocalDisk}
use pp.Jrnl.Blocks.{slash, sb_nr, parse_lb, blk_per_sys, end_jrnl, get_log_segment_start}
use pp.Jrnl.Txn.{TxnHandle, write_block}
use pp.Jrnl.Txn.Written.{LoggedAt, lock_back, write_block-WroteBlock}
use pp.Jrnl.Replay.State.{IsData, Holds}
use pp.Jrnl.Setup.Atomic.{Idle}
use pp.Jrnl.Close.Whole.{AllLoggable, Wrote, Wrote-cons}
use pp.Inode.Chunk.{splice, write_chunk, write_chunk-splice}
use pp.Inode.Blocks.{write_blocks}
use pp.Inode.Contents.{text, Full}
use pp.Inode.Chunks.{chunks, place-Full, left-fits, Full-behind}
use pp.Inode.Read.{AllFree, AllFree-Same}

Lacks-take : (n : ℕ) (s : Bytes) → Lacks slash s → Lacks slash (take n s)
Lacks-take zero s h = tt
Lacks-take (suc n) [] h = tt
Lacks-take (suc n) (c ∷ s) h = (h.0, Lacks-take n s h.1)

Lacks-drop : (n : ℕ) (s : Bytes) → Lacks slash s → Lacks slash (drop n s)
Lacks-drop zero s h = h
Lacks-drop (suc n) [] h = tt
Lacks-drop (suc n) (c ∷ s) h = Lacks-drop n s h.1

Lacks-splice : (bo : ℕ) (d x : Bytes) → Lacks slash d → Lacks slash x → Lacks slash (splice bo d x)
Lacks-splice bo d x hd hx =
    Lacks-append slash (take bo x ++ d) (drop (bo + length d) x)
      (Lacks-append slash (take bo x) d (Lacks-take bo x hx) hd) (Lacks-drop (bo + length d) x hx)

-- The blocks lie behind the journal, and have no slash.
abbrev pub Plain : (ℕ → Bytes) → List ℕ → Type 0
Plain f [] = Unit
Plain f (a ∷ addrs) = IsData a × Lacks slash (f a) × Plain f addrs

pub Plain-drop : (f : ℕ → Bytes) (n : ℕ) (addrs : List ℕ) → Plain f addrs → Plain f (drop n addrs)
Plain-drop f zero addrs h = h
Plain-drop f (suc n) [] h = tt
Plain-drop f (suc n) (a ∷ addrs) h = Plain-drop f n addrs h.2

pub chunks-AllLoggable :
    (f : ℕ → Bytes) (addrs : List ℕ) (bo : ℕ) (data_ : Bytes)
    → Plain f addrs
    → Lacks slash data_
    → AllLoggable (chunks f addrs bo data_)
chunks-AllLoggable f addrs bo [] p h = tt
chunks-AllLoggable f [] bo (c ∷ data_) p h = tt
chunks-AllLoggable f (a ∷ addrs) bo (c ∷ data_) (at, lacks, p) h = (
  (
    at,
    Lacks-splice bo (take (4096 - bo) (c ∷ data_)) (f a) (Lacks-take (4096 - bo) (c ∷ data_) h)
        lacks,
  ),
  chunks-AllLoggable f addrs 0 (drop (4096 - bo) (c ∷ data_)) p
      (Lacks-drop (4096 - bo) (c ∷ data_) h),
)

pub length-chunks :
    (f : ℕ → Bytes) (addrs : List ℕ) (bo : ℕ) (data_ : Bytes)
    → length (chunks f addrs bo data_) ≤ length addrs
length-chunks f addrs bo [] = omega arith
length-chunks f [] bo (c ∷ data_) = omega arith
length-chunks f (a ∷ addrs) bo (c ∷ data_) =
    omega (arith, length-chunks f addrs 0 (drop (4096 - bo) (c ∷ data_)))

module _ {S : Type 0} {dsk : Disk S} (d : LocalDisk dsk) where
  -- The data blocks are as `f` says.
  abbrev pub SameData : (ℕ → Bytes) → S → Type 0
  SameData f s = (m : ℕ) → IsData m → d.content s m ≡ f m

  pub Idle-Same : (s s' : S) → Same (d.held s) (d.held s') → Idle d s → Idle d s'
  Idle-Same s s' h idle = record {
    sb = h _ (omega arith) ∙ idle.sb;
    log = λ m i. h m (omega (arith, i)) ∙ idle.log m i;
  }

  pub Idle-taken :
      (a : ℕ) (s s' : S) → IsData a → Sets (d.held s) a true (d.held s') → Idle d s → Idle d s'
  Idle-taken a s s' at h idle = record {
    sb =
        let other : (a == sb_nr) ≡ false = ground (arith, at) in
        h sb_nr (omega arith) ∙ rw other idle.sb;
    log = λ m i.
        let other : (a == m) ≡ false = ground (arith, at, i) in
        h m (omega (arith, i)) ∙ rw other (idle.log m i);
  }

  -- The loop has logged the blocks one behind the other, and released them.
  abbrev pub StoredAll : ℕ → List Block → TxnHandle → S → S × TxnHandle → Type 0
  StoredAll lbn bs t s r = Wrote d lbn bs t s r × Same (d.held s) (d.held r.0)

  -- One block: taken, logged and released.
  store_one :
      (fuel a lbn : ℕ) (f : ℕ → Bytes) (w : Bytes) (t : TxnHandle) (s : S)
      → IsData a
      → Lacks slash w
      → t.offset < blk_per_sys
      → lbn ≡ get_log_segment_start t.blk_seg + t.offset
      → lbn < end_jrnl
      → Idle d s
      → d.held s a ≡ false
      → SameData f s
      → (s₁ : S) × (s₂ : S) × (bget dsk (suc fuel) a s ≡ some (s₁, record { nr = a; data_ = f a }))
        × (write_block dsk (suc fuel) t (record { nr = a; data_ = w }) s₁
            ≡ some (s₂, record t { offset = t.offset + 1 }, true))
        × LoggedAt d lbn
            (record { nr = a; data_ = w })
            s
            (brelse dsk (record { nr = a; data_ = w }) s₂).0
        × Same (d.held s) (d.held (brelse dsk (record { nr = a; data_ = w }) s₂).0)
  store_one fuel a lbn f w t s at lacks room pos low idle free same =
      let ((s₁, b₀), e, (eb, c, h)) = d.get fuel a s at.1 free in
      let b : Block = record { nr = a; data_ = w } in
      let got =
        e ∙ ap (λ x. some (s₁, x)) (eb ∙ ap (λ x. record { nr = a; data_ = x }) (same a at)) in
      let ((s₂, t', done), e₂, (et, ed, (idle₂, holds, others), locks)) =
        write_block-WroteBlock d fuel t b s₁ room (omega (arith, pos, low)) (at, lacks)
          (Idle-taken a s s₁ at h idle) in
      let (c', h') = d.relse b s₂ at.1 in
      let back : Same (d.held s) (d.held (brelse dsk b s₂).0) = λ m le.
        h' m le
        ∙ ap (λ x. if a == m then false else x) (locks m le ∙ h m le)
        ∙ lock_back (d.held s) a a m refl free in
      let held_log : Holds (d.content s₂) lbn b false =
        subst (λ m. Holds (d.content s₂) m b false) (sym pos) holds in
      (
        s₁,
        s₂,
        got,
        e₂
            ∙ ap (λ x. some (s₂, x, done)) et
            ∙ ap (λ x. some (s₂, record t { offset = t.offset + 1 }, x)) ed,
        (
          Idle-Same s (brelse dsk b s₂).0 back idle,
          ap (λ x. parse_lb (record { nr = lbn; data_ = x })) (c' lbn (omega (arith, low)))
              ∙ held_log,
          λ m le ne. c' m le ∙ others m le (λ z. ne (z ∙ sym pos)) ∙ c m le,
        ),
        back,
      )

  pub write_blocks-StoredAll :
      (fuel lbn bo : ℕ) (f : ℕ → Bytes) (t : TxnHandle) (addrs : List ℕ) (data_ : Bytes) (s : S)
      → bo < 4096
      → t.offset + length (chunks f addrs bo data_) ≤ blk_per_sys
      → lbn ≡ get_log_segment_start t.blk_seg + t.offset
      → lbn + length (chunks f addrs bo data_) ≤ end_jrnl
      → Full f addrs
      → bo + length data_ ≤ length (text f addrs)
      → Plain f addrs
      → Lacks slash data_
      → AllFree d s addrs
      → Idle d s
      → SameData f s
      → Returns
          (write_blocks dsk (suc fuel) t addrs bo data_ s)
          (StoredAll lbn (chunks f addrs bo data_) t s)
  unfolding write_blocks
  write_blocks-StoredAll fuel lbn bo f t addrs [] s small room pos low full fits plain lacks free
        idle same =
      let q : t.offset + 0 ≡ t.offset = omega arith in
      (
        _,
        refl,
        (
          record {
            handle = rw q refl;
            idle = idle;
            log = tt;
            others = λ m le. ((λ _. refl), (λ _. refl));
          },
          λ m le. refl,
        ),
      )
  write_blocks-StoredAll fuel lbn bo f t [] (c ∷ data_) s small room pos low full fits plain lacks
        free idle same =
      absurd (omega (arith, fits))
  write_blocks-StoredAll fuel lbn bo f t (a ∷ addrs) (c ∷ data_) s small room pos low full fits
        (at, slashless, plain) lacks (le, fr, free) idle same =
      let dd = c ∷ data_ in
      let w = splice bo (take (4096 - bo) dd) (f a) in
      let left = drop (4096 - bo) dd in
      let b : Block = record { nr = a; data_ = w } in
      let (inside, within) = place-Full f a bo addrs c data_ small full fits in
      let guard : ltb (length (f a)) bo ≡ false = ground (arith, inside) in
      let chunk : write_chunk bo dd (f a) ≡ (w, left) =
        write_chunk-splice bo dd (f a) small inside within in
      let hw =
        Lacks-splice bo (take (4096 - bo) dd) (f a) (Lacks-take (4096 - bo) dd lacks) slashless in
      let (s₁, s₂, got, wrote, logged, back) =
        store_one fuel a lbn f w t s at hw (omega (arith, room)) pos (omega (arith, low)) idle fr
          same in
      let s₃ = (brelse dsk b s₂).0 in
      let same₃ : SameData f s₃ =
        λ m i. logged.2 m i.1 (λ z. absurd (omega (arith, z, i.0, low))) ∙ same m i in
      let next : TxnHandle = record t { offset = t.offset + 1 } in
      let (r, g, (all, locks)) =
        write_blocks-StoredAll fuel (suc lbn) 0 f next addrs left s₃ (omega arith)
          (omega (arith, room)) (omega (arith, pos)) (omega (arith, low))
          (Full-behind f a addrs full) (left-fits f a bo addrs dd small full fits) plain
          (Lacks-drop (4096 - bo) dd lacks) (AllFree-Same d s s₃ addrs back free) logged.0 same₃ in
      (
        r,
        rw (got, guard, chunk, wrote) g,
        (
          Wrote-cons d t b (chunks f addrs 0 left) lbn s s₃ r (omega (arith, pos, low)) (at, hw)
              logged all,
          λ m l. locks m l ∙ back m l,
        ),
      )

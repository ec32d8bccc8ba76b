-- ===== src/Inode/File.antt =====
-- inode/iblock.go: `Readi` gives the contents of the file from the offset on, and changes nothing.
use pp.Prelude.{
  ℕ, suc, ◌+◌, ◌*◌, ◌/◌, ◌%◌, ◌≤◌, ◌<◌, ◌≡◌, refl, sym, ◌++◌, ap, ap₂, ◌∙◌, true, false, some, List,
  [], ◌∷◌, take, drop, length, leb, ◌==◌, arith, Returns, Bool-cases, inl, inr, leb→le, leb→lt,
  drop_all,
}
use pp.Text.{Bytes}
use pp.Bio.Disk.{Block, Disk, brelse}
use pp.Bio.Local.{Same, Sets, LocalDisk}
use pp.Inode.{Inode, Coding, first_inode_addr, num_inodes, is_empty, block_of, relse, geti}
use pp.Inode.Blocks.{readi}
use pp.Inode.Contents.{NotAmong, text, Full, Full-drop, drop-text, length-text}
use pp.Inode.Read.{AllFree, AllFree-Same, AllFree-drop, Unchanged, read_blocks-Reads, nothing}

module _ {S : Type 0} {dsk : Disk S} (d : LocalDisk dsk) (coding : Coding) where
  abbrev pub inode_text : ℕ → S → Bytes
  inode_text inum s = d.content s (first_inode_addr + inum)

  -- The inode and its blocks can be read: no lock is held, and every block but the last is full.
  pub record Readable (inum : ℕ) (i : Inode) (s : S) : Type 0 where
    pub below : inum < num_inodes
    pub there : is_empty (inode_text inum s) ≡ false
    pub decoded : coding.i_decode (inode_text inum s) ≡ i
    pub serial : i.serialnum ≡ inum
    pub free : d.held s (first_inode_addr + inum) ≡ false
    pub blocks : AllFree d s i.addrs
    pub others : NotAmong (first_inode_addr + inum) i.addrs
    pub full : Full (d.content s) i.addrs

  pub text-Same :
      (s s' : S) (addrs : List ℕ)
      → Same (d.content s) (d.content s')
      → AllFree d s addrs
      → text (d.content s') addrs ≡ text (d.content s) addrs
  text-Same s s' [] c free = refl
  text-Same s s' (a ∷ addrs) c (le, f, free) =
      ap₂ (λ x y. x ++ y) (c a le) (text-Same s s' addrs c free)

  Full-Same :
      (s s' : S) (addrs : List ℕ)
      → Same (d.content s) (d.content s')
      → AllFree d s addrs
      → Full (d.content s) addrs
      → Full (d.content s') addrs
  Full-Same s s' [] c free full = tt
  Full-Same s s' (a ∷ []) c (le, f, free) full =
      let e = ap length (c a le) in omega (arith, e, full)
  Full-Same s s' (a ∷ b ∷ addrs) c (le, f, free) (len, full) =
      (ap length (c a le) ∙ len, Full-Same s s' (b ∷ addrs) c free full)

  -- The inode was taken.
  abbrev pub Got : ℕ → Inode → S → S × Inode → Type 0
  Got inum i s r =
      (r.1 ≡ i)
      × Same (d.content s) (d.content r.0)
      × Sets (d.held s) (first_inode_addr + inum) true (d.held r.0)

  pub geti-Got :
      (fuel inum : ℕ) (i : Inode) (s : S)
      → Readable inum i s
      → Returns (geti dsk coding (suc fuel) inum s) (Got inum i s)
  unfolding geti
  geti-Got fuel inum i s ok =
      let n : leb num_inodes inum ≡ false = let low = ok.below in ground arith in
      let ((s₁, b), e, (eb, c, h)) =
        d.get fuel (first_inode_addr + inum) s (omega (arith, ok.below)) ok.free in
      let q : b.data_ ≡ inode_text inum s = ap (λ x. x.data_) eb in
      (
        (s₁, coding.i_decode b.data_),
        rw (n, e, ap is_empty q ∙ ok.there) refl,
        (ap coding.i_decode q ∙ ok.decoded, c, h),
      )

  pub AllFree-taken :
      (s s' : S) (n : ℕ) (addrs : List ℕ)
      → Sets (d.held s) n true (d.held s')
      → NotAmong n addrs
      → AllFree d s addrs
      → AllFree d s' addrs
  AllFree-taken s s' n [] h ne free = tt
  AllFree-taken s s' n (a ∷ addrs) h (ne, nes) (le, f, free) =
      let other : (n == a) ≡ false = ground arith in
      (le, h a le ∙ rw other f, AllFree-taken s s' n addrs h nes free)

  -- Taken and released.
  released :
      (inum : ℕ) (i : Inode) (s s₁ s₂ : S)
      → Readable inum i s
      → Same (d.content s) (d.content s₁)
      → Sets (d.held s) (first_inode_addr + inum) true (d.held s₁)
      → Unchanged d s₁ s₂
      → Unchanged d s (relse dsk coding i s₂)
  unfolding relse
  released inum i s s₁ s₂ ok c h (c', h') =
      let b : Block = block_of dsk coding i in
      let serial = ok.serial in
      let (cr, hr) = d.relse b s₂ (omega (arith, ok.below, serial)) in
      let back : Same (d.held s) (d.held (brelse dsk b s₂).0) = λ m l.
        hr m l ∙ elim (Bool-cases (b.nr == m)) [
          | inl t ↦
              let same : first_inode_addr + inum ≡ m = ground arith in
              rw t (sym ok.free ∙ ap (d.held s) same)
          | inr t ↦
              let other : (first_inode_addr + inum == m) ≡ false = ground arith in
              rw t (h' m l ∙ h m l ∙ rw other refl)
        ] in
      ((λ m l. cr m l ∙ c' m l ∙ c m l), back)

  -- The part of the file from `offset` on, of at most `count` bytes.
  abbrev pub IsRead : Inode → ℕ → ℕ → S → S × Bytes → Type 0
  IsRead i offset count s r =
      (r.1 ≡ take count (drop offset (text (d.content s) i.addrs))) × Unchanged d s r.0

  pub offset-parts : (offset : ℕ) → offset ≡ (offset / 4096) * 4096 + offset % 4096
  offset-parts offset = omega arith

  -- On a disk of one client, for an inode that is there, with its blocks, none of them held and all but the last full, `Readi`
  -- does not fail, gives the bytes of the file from the offset on, as many as were asked for or as there are, and leaves
  -- every block and lock as it was.
  pub readi-IsRead :
      (fuel inum offset count : ℕ) (i : Inode) (s : S)
      → Readable inum i s
      → Returns (readi dsk coding (suc fuel) inum offset count s) (IsRead i offset count s)
  unfolding readi
  readi-IsRead fuel inum offset count i s ok =
      let ((s₁, i'), e, (same, c, h)) = geti-Got fuel inum i s ok in
      let g : geti dsk coding (suc fuel) inum s ≡ some (s₁, i) = e ∙ ap (λ x. some (s₁, x)) same in
      let bn = offset / 4096 in
      elim (Bool-cases (leb (length i.addrs) bn)) [
        | inl t ↦
            let over = leb→le (length i.addrs) bn t in
            let short : length (text (d.content s) i.addrs) ≤ offset =
              omega (arith, over, length-text (d.content s) i.addrs ok.full) in
            let none_left =
              ap (take count) (drop_all offset (text (d.content s) i.addrs) short)
              ∙ nothing count 0 in
            (
              (relse dsk coding i s₁, []),
              rw (g, t) refl,
              (sym none_left, released inum i s s₁ s₁ ok c h ((λ m l. refl), (λ m l. refl))),
            )
        | inr t ↦
            let low = leb→lt (length i.addrs) bn t in
            let f = d.content s in
            let free =
              AllFree-drop d s₁ bn i.addrs
                (AllFree-taken s s₁ (first_inode_addr + inum) i.addrs h ok.others ok.blocks) in
            let ((s₂, res), e₂, (reads, u)) =
              read_blocks-Reads d fuel (offset % 4096) count f (drop bn i.addrs) s₁ (omega arith)
                (Full-drop f bn i.addrs ok.full) c free in
            let at : drop offset (text f i.addrs)
                ≡ drop (offset % 4096) (text f (drop bn i.addrs)) =
              ap (λ n. drop n (text f i.addrs)) (offset-parts offset)
              ∙ drop-text f bn (offset % 4096) i.addrs ok.full low in
            (
              (relse dsk coding i s₂, res),
              rw (g, t, e₂) refl,
              (reads ∙ sym (ap (take count) at), released inum i s s₁ s₂ ok c h u),
            )
      ]

  -- What can be read stays so while contents and locks do not change.
  pub Readable-Unchanged :
      (inum : ℕ) (i : Inode) (s s' : S) → Unchanged d s s' → Readable inum i s → Readable inum i s'
  Readable-Unchanged inum i s s' (c, h) ok =
      let same : inode_text inum s' ≡ inode_text inum s = c _ (omega (arith, ok.below)) in
      record {
        below = ok.below;
        there = ap is_empty same ∙ ok.there;
        decoded = ap coding.i_decode same ∙ ok.decoded;
        serial = ok.serial;
        free = h _ (omega (arith, ok.below)) ∙ ok.free;
        blocks = AllFree-Same d s s' i.addrs h ok.blocks;
        others = ok.others;
        full = Full-Same s s' i.addrs c ok.blocks ok.full;
      }

-- ===== src/Inode/Read.antt =====
-- inode/iblock.go: the loop of `Readi`.
use pp.Prelude.{
  ℕ, zero, suc, ◌-◌, ◌≤◌, ◌<◌, ◌≡◌, refl, sym, ap, ◌∙◌, true, false, some, List, [], ◌∷◌, ◌++◌,
  take, drop, length, ltb, ◌==◌, arith, Returns, Bool-cases, inl, inr, ltb→lt, ltb→le, drop_all,
  length-append, take_all, subst,
}
use pp.Text.{Bytes}
use pp.Text.Decimal.{max_u64}
use pp.Bio.Disk.{Block, Disk, bget, brelse}
use pp.Bio.Local.{Same, LocalDisk}
use pp.Inode.Blocks.{to_read, off_end, read_blocks}
use pp.Inode.Contents.{text, Full, drop-append, take-append}

-- What a round reads, and what it leaves to be read.
to_read-take :
    (count : ℕ) (data_ rest : Bytes)
    → take (to_read count data_) data_ ++ take (count - to_read count data_) rest
      ≡ take count (data_ ++ rest)
to_read-take count data_ rest = elim (Bool-cases (ltb count (length data_))) [
  | inl t ↦
      let e : count - count ≡ count - length data_ =
        let low = ltb→lt count (length data_) t in omega (arith, low) in
      rw t (rw e (sym (take-append count data_ rest)))
  | inr t ↦
      let high = ltb→le count (length data_) t in
      let all : take (length data_) data_ ≡ take count data_ =
        take_all (length data_) data_ (omega arith) ∙ sym (take_all count data_ high) in
      rw t
        (ap (λ x. x ++ take (count - length data_) rest) all ∙ sym (take-append count data_ rest))
]

pub nothing : (count bo : ℕ) → Path Bytes (take count (drop bo [])) []
nothing zero bo = refl
nothing (suc count) zero = refl
nothing (suc count) (suc bo) = refl

Full-tail : (f : ℕ → Bytes) (a : ℕ) (addrs : List ℕ) → Full f (a ∷ addrs) → Full f addrs
Full-tail f a [] full = tt
Full-tail f a (b ∷ addrs) full = full.1

off_end-fits : (bo : ℕ) (data_ : Bytes) → off_end bo data_ ≡ false → bo ≤ length data_
off_end-fits bo data_ h = ground arith

-- Only the last block ends before a place below 4096.
off_end-nothing :
    (f : ℕ → Bytes) (a : ℕ) (addrs : List ℕ) (bo : ℕ)
    → off_end bo (f a) ≡ true
    → bo < 4096
    → Full f (a ∷ addrs)
    → drop bo (text f (a ∷ addrs)) ≡ []
off_end-nothing f a [] bo h low full =
    let short : length (f a) ≤ bo = ground arith in
    drop_all bo (f a ++ []) (omega (arith, short, length-append (f a) []))
off_end-nothing f a (b ∷ addrs) bo h low (len, full) =
    let short : length (f a) ≤ bo = ground arith in absurd (omega (arith, short, len, low))

module _ {S : Type 0} {dsk : Disk S} (d : LocalDisk dsk) where
  -- The blocks are not held.
  abbrev pub AllFree : S → List ℕ → Type 0
  AllFree s [] = Unit {0}
  AllFree s (a ∷ addrs) = (a ≤ max_u64) × (d.held s a ≡ false) × AllFree s addrs

  pub AllFree-Same :
      (s s' : S) (addrs : List ℕ) → Same (d.held s) (d.held s') → AllFree s addrs → AllFree s' addrs
  AllFree-Same s s' [] h free = tt
  AllFree-Same s s' (a ∷ addrs) h (le, f, free) = (le, h a le ∙ f, AllFree-Same s s' addrs h free)

  abbrev pub Unchanged : S → S → Type 0
  Unchanged s s' = Same (d.content s) (d.content s') × Same (d.held s) (d.held s')

  -- A block that is taken and released.
  pub get-release :
      (fuel a : ℕ) (s : S)
      → a ≤ max_u64
      → d.held s a ≡ false
      → Returns (bget dsk (suc fuel) a s) (λ r.
        (r.1 ≡ record { nr = a; data_ = d.content s a }) × Unchanged s (brelse dsk r.1 r.0).0)
  get-release fuel a s le free =
      let (r, e, (eb, c, h)) = d.get fuel a s le free in
      let b : Block = record { nr = a; data_ = d.content s a } in
      let (c', h') = d.relse b r.0 le in
      let held' : Same (d.held s) (d.held (brelse dsk b r.0).0) = λ m l.
        h' m l ∙ elim (Bool-cases (a == m)) [
          | inl t ↦ let same : a ≡ m = ground arith in rw t (sym free ∙ ap (d.held s) same)
          | inr t ↦ rw t (h m l ∙ rw t refl)
        ] in
      ((r.0, b), e ∙ ap (λ x. some (r.0, x)) eb, (refl, (λ m l. c' m l ∙ c m l, held')))

  pub AllFree-drop : (s : S) (n : ℕ) (addrs : List ℕ) → AllFree s addrs → AllFree s (drop n addrs)
  AllFree-drop s zero addrs free = free
  AllFree-drop s (suc n) [] free = free
  AllFree-drop s (suc n) (a ∷ addrs) free = AllFree-drop s n addrs free.2

  -- What the loop reads, where the blocks are as `f` says.
  abbrev pub Reads : (ℕ → Bytes) → List ℕ → ℕ → ℕ → S → S × Bytes → Type 0
  Reads f addrs bo count s r = (r.1 ≡ take count (drop bo (text f addrs))) × Unchanged s r.0

  unchanged : (s : S) → Unchanged s s
  unchanged s = ((λ m l. refl), (λ m l. refl))

  pub Unchanged-trans : (s s' s'' : S) → Unchanged s s' → Unchanged s' s'' → Unchanged s s''
  Unchanged-trans s s' s'' (c, h) (c', h') = ((λ m l. c' m l ∙ c m l), (λ m l. h' m l ∙ h m l))

  pub read_blocks-Reads :
      (fuel bo count : ℕ) (f : ℕ → Bytes) (addrs : List ℕ) (s : S)
      → bo < 4096
      → Full f addrs
      → Same f (d.content s)
      → AllFree s addrs
      → Returns (read_blocks dsk (suc fuel) addrs bo count s) (Reads f addrs bo count s)
  unfolding read_blocks
  read_blocks-Reads fuel bo count f [] s low full same free =
      (_, refl, (sym (nothing count bo), unchanged s))
  read_blocks-Reads fuel bo count f (a ∷ addrs) s low full same (le, fr, free) =
      elim (Bool-cases (count == 0)) [
        | inl t ↦
            let z : count ≡ 0 = ground arith in
            (
              (s, []),
              rw t refl,
              (ap (λ n. take n (drop bo (text f (a ∷ addrs)))) (sym z), unchanged s),
            )
        | inr t ↦
            let ((s₁, b), e, (eb, u)) = get-release fuel a s le fr in
            let s₂ = (brelse dsk b s₁).0 in
            let q : b.data_ ≡ f a = ap (λ x. x.data_) eb ∙ same a le in
            elim (Bool-cases (off_end bo b.data_)) [
              | inl over ↦
                  let none_left =
                    off_end-nothing f a addrs bo (subst (λ x. off_end bo x ≡ true) q over) low
                      full in
                  (
                    (s₂, []),
                    rw (t, e, over) refl,
                    (sym (ap (take count) none_left ∙ nothing count 0), u),
                  )
              | inr over ↦
                  let n = to_read count (drop bo b.data_) in
                  let ((s₃, res), g, (h, u')) =
                    read_blocks-Reads fuel 0 (count - n) f addrs s₂ (omega arith)
                      (Full-tail f a addrs full) (λ m l. u.0 m l ∙ same m l)
                      (AllFree-Same s s₂ addrs u.1 free) in
                  let fits = off_end-fits bo b.data_ over in
                  let whole : take n (drop bo b.data_) ++ res
                      ≡ take count (drop bo (f a ++ text f addrs)) =
                    ap (λ x. take n (drop bo b.data_) ++ x) h
                    ∙ to_read-take count (drop bo b.data_) (text f addrs)
                    ∙ ap (take count) (
                        sym (drop-append bo b.data_ (text f addrs) fits)
                        ∙ ap (λ x. drop bo (x ++ text f addrs)) q) in
                  (
                    (s₃, take n (drop bo b.data_) ++ res),
                    rw (t, e, over, g) refl,
                    (whole, Unchanged-trans s s₂ s₃ u u'),
                  )
            ]
      ]

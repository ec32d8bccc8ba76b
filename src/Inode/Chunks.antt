-- ===== src/Inode/Chunks.antt =====
-- inode/iblock.go: the blocks that a write makes, and the contents of the file when they are on the disk.
use pp.Prelude.{
  ℕ, zero, suc, ◌+◌, ◌-◌, ◌*◌, ◌≤◌, ◌<◌, ◌≡◌, ◌≢◌, refl, sym, ap, ap₂, ◌∙◌, List, [], ◌∷◌, ◌++◌,
  take, drop, length, length-append, length-drop, take_all, drop_all, false, ==_refl, ◌==◌,
  if◌then◌else◌, arith,
}
use pp.Text.{Bytes}
use pp.Bio.Disk.{Block}
use pp.Bio.Local.{update}
use pp.Jrnl.Replay.State.{write_all}
use pp.Inode.Chunk.{splice}
use pp.Inode.Contents.{text, Full, NotAmong, NotAmong-drop, Apart}
use pp.Inode.Splice.{splice-append, splice-behind, splice-nil}

-- The blocks that are written, where the disk is as `f` says: each is spliced with the part of the data for it.
abbrev pub chunks : (ℕ → Bytes) → List ℕ → ℕ → Bytes → List Block
chunks f addrs bo [] = []
chunks f [] bo (c ∷ data_) = []
chunks f (a ∷ addrs) bo (c ∷ data_) =
    record { nr = a; data_ = splice bo (take (4096 - bo) (c ∷ data_)) (f a) }
    ∷ chunks f addrs 0 (drop (4096 - bo) (c ∷ data_))

update_ne : (f : ℕ → Bytes) (a k : ℕ) (w : Bytes) → a ≢ k → update f a w k ≡ f k
update_ne f a k w ne = let other : (a == k) ≡ false = ground arith in rw other refl

-- A block that is not written is kept.
pub write_all-chunks :
    (f g : ℕ → Bytes) (m bo : ℕ) (data_ : Bytes) (addrs : List ℕ)
    → NotAmong m addrs
    → write_all (chunks f addrs bo data_) g m ≡ g m
write_all-chunks f g m bo [] addrs h = refl
write_all-chunks f g m bo (c ∷ data_) [] h = refl
write_all-chunks f g m bo (c ∷ data_) (a ∷ addrs) (ne, h) =
    let w = splice bo (take (4096 - bo) (c ∷ data_)) (f a) in
    write_all-chunks f (update g a w) m 0 (drop (4096 - bo) (c ∷ data_)) addrs h
    ∙ update_ne g a m w (λ e. ne (sym e))

-- Contents that agree on the blocks of a file make the same text.
text-agree :
    (f g : ℕ → Bytes) (m : ℕ) (addrs : List ℕ)
    → NotAmong m addrs
    → ((k : ℕ) → m ≢ k → g k ≡ f k)
    → text g addrs ≡ text f addrs
text-agree f g m [] h e = refl
text-agree f g m (a ∷ addrs) (ne, h) e = ap₂ (λ x y. x ++ y) (e a ne) (text-agree f g m addrs h e)

write_all-agree :
    (bs : List Block) (f g : ℕ → Bytes) (m : ℕ)
    → ((k : ℕ) → m ≢ k → g k ≡ f k)
    → (k : ℕ) → m ≢ k
    → write_all bs g k ≡ write_all bs f k
write_all-agree [] f g m e = e
write_all-agree (b ∷ bs) f g m e =
    write_all-agree bs (update f b.nr b.data_) (update g b.nr b.data_) m
      (λ k ne. ap (λ x. if b.nr == k then b.data_ else x) (e k ne))

-- The part for a block is what there is room for in it, since only the last block is not full.
cut-Full :
    (f : ℕ → Bytes) (a bo : ℕ) (addrs : List ℕ) (data_ : Bytes)
    → Full f (a ∷ addrs)
    → bo + length data_ ≤ length (text f (a ∷ addrs))
    → (take (4096 - bo) data_ ≡ take (length (f a) - bo) data_)
      × (drop (4096 - bo) data_ ≡ drop (length (f a) - bo) data_)
cut-Full f a bo [] data_ full fits =
    let len = length-append (f a) [] in
    (
      take_all (4096 - bo) data_ (omega (arith, full, fits, len))
          ∙ sym (take_all (length (f a) - bo) data_ (omega (arith, fits, len))),
      drop_all (4096 - bo) data_ (omega (arith, full, fits, len))
          ∙ sym (drop_all (length (f a) - bo) data_ (omega (arith, fits, len))),
    )
cut-Full f a bo (b ∷ addrs) data_ (len, full) fits =
    (ap (λ n. take (n - bo) data_) (sym len), ap (λ n. drop (n - bo) data_) (sym len))

-- A place in the text that is followed by some of it, in the first block.
pub place-Full :
    (f : ℕ → Bytes) (a bo : ℕ) (addrs : List ℕ) (c : ℕ) (data_ : Bytes)
    → bo < 4096
    → Full f (a ∷ addrs)
    → bo + length (c ∷ data_) ≤ length (text f (a ∷ addrs))
    → (bo ≤ length (f a)) × (length (f a) ≤ 4096)
place-Full f a bo [] c data_ low full fits = (omega (arith, fits, length-append (f a) []), full)
place-Full f a bo (b ∷ addrs) c data_ low (len, full) fits =
    (omega (arith, len, low), omega (arith, len))

-- What is left fits behind the first block.
pub left-fits :
    (f : ℕ → Bytes) (a bo : ℕ) (addrs : List ℕ) (data_ : Bytes)
    → bo < 4096
    → Full f (a ∷ addrs)
    → bo + length data_ ≤ length (text f (a ∷ addrs))
    → 0 + length (drop (4096 - bo) data_) ≤ length (text f addrs)
left-fits f a bo [] data_ low full fits =
    omega (arith, low, full, fits, length-append (f a) [], length-drop (4096 - bo) data_)
left-fits f a bo (b ∷ addrs) data_ low (len, full) fits =
    omega (
      arith,
      low,
      len,
      fits,
      length-append (f a) (text f (b ∷ addrs)),
      length-drop (4096 - bo) data_,
    )

pub Full-behind : (f : ℕ → Bytes) (a : ℕ) (addrs : List ℕ) → Full f (a ∷ addrs) → Full f addrs
Full-behind f a [] full = tt
Full-behind f a (b ∷ addrs) full = full.1

-- From a place in the first block on.
text-chunks :
    (f : ℕ → Bytes) (addrs : List ℕ) (bo : ℕ) (data_ : Bytes)
    → bo < 4096
    → Full f addrs
    → Apart addrs
    → bo + length data_ ≤ length (text f addrs)
    → text (write_all (chunks f addrs bo data_) f) addrs ≡ splice bo data_ (text f addrs)
text-chunks f addrs bo [] low full apart fits = sym (splice-nil bo (text f addrs))
text-chunks f [] bo (c ∷ data_) low full apart fits = absurd (omega (arith, fits))
text-chunks f (a ∷ addrs) bo (c ∷ data_) low full (away, apart) fits =
    let d = c ∷ data_ in
    let w = splice bo (take (4096 - bo) d) (f a) in
    let left = drop (4096 - bo) d in
    let rest = chunks f addrs 0 left in
    let g = update f a w in
    let head : write_all rest g a ≡ w =
      write_all-chunks f g a 0 left addrs away ∙ rw (==_refl a) refl in
    let same : (k : ℕ) → a ≢ k → g k ≡ f k = λ k ne. update_ne f a k w ne in
    let tail : text (write_all rest g) addrs ≡ splice 0 left (text f addrs) =
      text-agree (write_all rest f) (write_all rest g) a addrs away
        (write_all-agree rest f g a same)
      ∙ text-chunks f addrs 0 left (omega arith) (Full-behind f a addrs full) apart
          (left-fits f a bo addrs d low full fits) in
    let cut = cut-Full f a bo addrs d full fits in
    let inside = (place-Full f a bo addrs c data_ low full fits).0 in
    ap₂ (λ p q. p ++ q) head tail
    ∙ ap₂ (λ p q. splice bo p (f a) ++ splice 0 q (text f addrs)) cut.0 cut.1
    ∙ sym (splice-append bo d (f a) (text f addrs) inside)

-- Data that lies in the file is spliced into its text, from block `bn` on.
pub text-spliced :
    (f : ℕ → Bytes) (bn bo : ℕ) (addrs : List ℕ) (data_ : Bytes)
    → bo < 4096
    → bn < length addrs
    → Full f addrs
    → Apart addrs
    → bn * 4096 + bo + length data_ ≤ length (text f addrs)
    → text (write_all (chunks f (drop bn addrs) bo data_) f) addrs
      ≡ splice (bn * 4096 + bo) data_ (text f addrs)
text-spliced f zero bo addrs data_ low h full apart fits =
    let e : 0 * 4096 + bo ≡ bo = omega arith in
    text-chunks f addrs bo data_ low full apart (omega (arith, fits))
    ∙ ap (λ n. splice n data_ (text f addrs)) (sym e)
text-spliced f (suc bn) bo [] data_ low h full apart fits = absurd (omega (arith, h))
text-spliced f (suc bn) bo (a ∷ []) data_ low h full apart fits = absurd (omega (arith, h))
text-spliced f (suc bn) bo (a ∷ b ∷ addrs) data_ low h (len, full) (away, apart) fits =
    let rest = b ∷ addrs in
    let bs = chunks f (drop bn rest) bo data_ in
    let tail =
      text-spliced f bn bo rest data_ low (omega (arith, h)) full apart
        (omega (arith, fits, len, length-append (f a) (text f rest))) in
    let e : length (f a) + (bn * 4096 + bo) ≡ suc bn * 4096 + bo = omega (arith, len) in
    ap₂ (λ p q. p ++ q)
      (write_all-chunks f f a bo data_ (drop bn rest) (NotAmong-drop a bn rest away)) tail
    ∙ sym (splice-behind (bn * 4096 + bo) data_ (f a) (text f rest))
    ∙ ap (λ n. splice n data_ (f a ++ text f rest)) e

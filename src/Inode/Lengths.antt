-- ===== src/Inode/Lengths.antt =====
-- inode/iblock.go: a write inside a file leaves every block as long as it was.
use pp.Prelude.{
  ℕ, zero, suc, ◌+◌, ◌-◌, ◌≤◌, ◌<◌, ◌≡◌, refl, ap, ◌∙◌, List, [], ◌∷◌, ◌++◌, take, drop, length,
  length-append, length-drop, length-take, Bool-cases, inl, inr, ◌==◌, arith,
}
use pp.Text.{Bytes}
use pp.Bio.Disk.{Block}
use pp.Bio.Local.{update}
use pp.Jrnl.Replay.State.{write_all}
use pp.Inode.Chunk.{splice}
use pp.Inode.Contents.{text, Full, Full-drop}
use pp.Inode.Chunks.{chunks, left-fits, Full-behind}

pub length-splice :
    (bo : ℕ) (d x : Bytes) → bo + length d ≤ length x → length (splice bo d x) ≡ length x
length-splice bo d x fits = omega (
  arith,
  fits,
  length-append (take bo x ++ d) (drop (bo + length d) x),
  length-append (take bo x) d,
  length-take bo x,
  length-drop (bo + length d) x,
)

take-length : (d x : Bytes) → take (length d) (d ++ x) ≡ d
take-length [] x = refl
take-length (c ∷ d) x = ap (λ l. c ∷ l) (take-length d x)

-- The bytes that were put into a text stand in it.
pub take-splice :
    (bo : ℕ) (d x : Bytes)
    → bo + length d ≤ length x
    → take (length d) (drop bo (splice bo d x)) ≡ d
take-splice zero d x fits = take-length d (drop (0 + length d) x)
take-splice (suc bo) d [] fits = absurd (omega (arith, fits))
take-splice (suc bo) d (c ∷ x) fits =
    let e : suc bo + length d ≡ suc (bo + length d) = omega arith in
    rw e (take-splice bo d x (omega (arith, fits)))

-- Each block is as long as what it replaces.
abbrev SameLengths : (ℕ → Bytes) → List Block → Type 0
SameLengths f [] = Unit
SameLengths f (b ∷ bs) = (length b.data_ ≡ length (f b.nr)) × SameLengths f bs

length-write_all :
    (f g : ℕ → Bytes) (bs : List Block)
    → SameLengths f bs
    → ((m : ℕ) → length (g m) ≡ length (f m))
    → (m : ℕ) → length (write_all bs g m) ≡ length (f m)
length-write_all f g [] h same m = same m
length-write_all f g (b ∷ bs) (len, h) same m =
    length-write_all f (update g b.nr b.data_) bs h
      (λ k. elim (Bool-cases (b.nr == k)) [
        | inl t ↦ let q : b.nr ≡ k = ground (arith, t) in rw t (len ∙ ap (λ j. length (f j)) q)
        | inr t ↦ rw t (same k)
      ])
      m

chunks-SameLengths :
    (f : ℕ → Bytes) (addrs : List ℕ) (bo : ℕ) (data_ : Bytes)
    → bo < 4096
    → Full f addrs
    → bo + length data_ ≤ length (text f addrs)
    → SameLengths f (chunks f addrs bo data_)
chunks-SameLengths f addrs bo [] low full fits = tt
chunks-SameLengths f [] bo (c ∷ data_) low full fits = tt
chunks-SameLengths f (a ∷ addrs) bo (c ∷ data_) low full fits =
    let d = c ∷ data_ in
    let part : bo + length (take (4096 - bo) d) ≤ length (f a) =
      part-fits f a bo addrs d low full fits in
    (
      length-splice bo (take (4096 - bo) d) (f a) part,
      chunks-SameLengths f addrs 0 (drop (4096 - bo) d) (omega arith) (Full-behind f a addrs full)
          (left-fits f a bo addrs d low full fits),
    )
  where
    part-fits :
        (f : ℕ → Bytes) (a bo : ℕ) (addrs : List ℕ) (d : Bytes)
        → bo < 4096
        → Full f (a ∷ addrs)
        → bo + length d ≤ length (text f (a ∷ addrs))
        → bo + length (take (4096 - bo) d) ≤ length (f a)
    part-fits f a bo [] d low full fits =
        omega (arith, length-take (4096 - bo) d, length-append (f a) [], fits)
    part-fits f a bo (b ∷ addrs) d low (len, full) fits =
        omega (arith, length-take (4096 - bo) d, len, low)

Full-lengths :
    (f g : ℕ → Bytes) (addrs : List ℕ)
    → ((m : ℕ) → length (g m) ≡ length (f m))
    → Full f addrs
    → Full g addrs
Full-lengths f g [] same full = tt
Full-lengths f g (a ∷ []) same full = omega (arith, same a, full)
Full-lengths f g (a ∷ b ∷ addrs) same (len, full) =
    (same a ∙ len, Full-lengths f g (b ∷ addrs) same full)

-- The file's blocks are full as they were.
pub Full-written :
    (f : ℕ → Bytes) (bn bo : ℕ) (addrs : List ℕ) (data_ : Bytes)
    → bo < 4096
    → Full f addrs
    → bo + length data_ ≤ length (text f (drop bn addrs))
    → Full (write_all (chunks f (drop bn addrs) bo data_) f) addrs
Full-written f bn bo addrs data_ low full fits =
    Full-lengths f (write_all (chunks f (drop bn addrs) bo data_) f) addrs
      (length-write_all f f (chunks f (drop bn addrs) bo data_)
        (chunks-SameLengths f (drop bn addrs) bo data_ low (Full-drop f bn addrs full) fits)
        (λ m. refl))
      full

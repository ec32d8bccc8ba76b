-- ===== src/Fs/Reads.antt =====
-- fs/fs.go: reads of a descriptor go on where the last one ended.
use pp.Prelude.{
  ℕ, zero, suc, ◌+◌, ◌≡◌, refl, sym, ap, ap₂, ◌∙◌, Option, some, [], ◌∷◌, ◌++◌, take, drop,
  drop-drop, length, length-append, ==_refl, arith, Returns,
}
use pp.Text.{Bytes}
use pp.Bio.Disk.{Disk}
use pp.Bio.Local.{LocalDisk}
use pp.Inode.{Inode, Coding}
use pp.Inode.Contents.{text}
use pp.Inode.Read.{Unchanged, Unchanged-trans, nothing}
use pp.Inode.File.{Readable, Readable-Unchanged, text-Same, readi-IsRead}
use pp.Fs.{File, Filesystem, set_file, read_open, read_fd}

-- A part, and the part behind it.
take-drop :
    (n m : ℕ) (xs : Bytes) → take n xs ++ take m (drop (length (take n xs)) xs) ≡ take (n + m) xs
take-drop zero m xs = ap (λ k. take k xs) {x = m} {y = 0 + m} (omega arith)
take-drop (suc n) m [] = nothing m 0 ∙ sym (nothing (suc n + m) 0)
take-drop (suc n) m (x ∷ xs) =
    let e : suc n + m ≡ suc (n + m) = omega arith in rw e (ap (λ l. x ∷ l) (take-drop n m xs))

-- Two parts that follow each other are one.
join :
    (o n m : ℕ) (xs a b c : Bytes)
    → a ≡ take n (drop o xs)
    → b ≡ take m (drop (o + length a) xs)
    → c ≡ take (n + m) (drop o xs)
    → c ≡ a ++ b
join o n m xs a b c ea eb ec =
    let x = drop o xs in
    let place : drop (o + length a) xs ≡ drop (length (take n x)) x =
      sym (drop-drop (length a) o xs) ∙ ap (λ l. drop (length l) x) ea in
    ec ∙ sym (take-drop n m x) ∙ sym (ap₂ (λ p q. p ++ q) ea (eb ∙ ap (take m) place))

-- The descriptor's new entry.
pub entry_self :
    (f g : Filesystem) (fd : ℕ) (fl : File)
    → g ≡ record f { fd_table = set_file f.fd_table fd (some fl) }
    → g.fd_table fd ≡ some fl
entry_self f g fd fl e = ap (λ h. h.fd_table fd) e ∙ rw (==_refl fd) refl

module _ {S : Type 0} {dsk : Disk S} (d : LocalDisk dsk) (coding : Coding) (start_data : ℕ) where
  -- A read: the bytes, the descriptor's new place, and nothing else changed.
  pub record ReadAt (fl : File) (i : Inode) (fd count : ℕ) (f : Filesystem) (s : S)
      (r : S × Filesystem × Option Bytes) : Type 0 where
    pub bytes : Bytes
    pub result : r.2 ≡ some bytes
    pub are : bytes ≡ take count (drop fl.offset (text (d.content s) i.addrs))
    pub moved : r.1 ≡ record f {
      fd_table = set_file f.fd_table fd (some (record fl { offset = fl.offset + length bytes }));
    }
    pub kept : Unchanged d s r.0

  pub read_fd-ReadAt :
      (fuel fd count : ℕ) (fl : File) (i : Inode) (f : Filesystem) (s : S)
      → f.fd_table fd ≡ some fl
      → Readable d coding fl.inum i s
      → Returns (read_fd dsk coding start_data (suc fuel) fd count f s) (ReadAt fl i fd count f s)
  unfolding read_fd read_open
  read_fd-ReadAt fuel fd count fl i f s there ok =
      let ((s₁, res), e, (are, kept)) = readi-IsRead d coding fuel fl.inum fl.offset count i s ok in
      (
        _,
        rw (there, e) refl,
        record { bytes = res; result = refl; are = are; moved = refl; kept = kept },
      )

  -- Two reads, one after the other, and one read of both counts.
  pub record GoesOn (fuel fd n m : ℕ) (f : Filesystem) (s : S) (r₁ : S × Filesystem × Option Bytes)
      : Type 0 where
    pub first : Bytes
    pub first_result : r₁.2 ≡ some first
    pub then_read : Returns (read_fd dsk coding start_data (suc fuel) fd m r₁.1 r₁.0) (λ r₂.
        (second : Bytes) × (r₂.2 ≡ some second)
        × Returns (read_fd dsk coding start_data (suc fuel) fd (n + m) f s) (λ r.
          (r.2 ≡ some (first ++ second))
          × (r.1.fd_table fd ≡ r₂.1.fd_table fd)
          × Unchanged d s r₂.0))

  -- On a disk of one client, for an open descriptor of a file that can be read, a read of `n` bytes and then a read of `m` bytes do
  -- not fail and give, one after the other, what one read of `n + m` bytes gives; the descriptor is at the same
  -- place after them, and no block and no lock is changed.
  pub read_fd-GoesOn :
      (fuel fd n m : ℕ) (fl : File) (i : Inode) (f : Filesystem) (s : S)
      → f.fd_table fd ≡ some fl
      → Readable d coding fl.inum i s
      → Returns (read_fd dsk coding start_data (suc fuel) fd n f s) (GoesOn fuel fd n m f s)
  read_fd-GoesOn fuel fd n m fl i f s there ok =
      let (r₁, e₁, a₁) = read_fd-ReadAt fuel fd n fl i f s there ok in
      let fl₁ : File = record fl { offset = fl.offset + length a₁.bytes } in
      let there₁ : r₁.1.fd_table fd ≡ some fl₁ = entry_self f r₁.1 fd fl₁ a₁.moved in
      let (r₂, e₂, a₂) =
        read_fd-ReadAt fuel fd m fl₁ i r₁.1 r₁.0 there₁
          (Readable-Unchanged d coding fl.inum i s r₁.0 a₁.kept ok) in
      let (r, e, a) = read_fd-ReadAt fuel fd (n + m) fl i f s there ok in
      let xs = text (d.content s) i.addrs in
      let same = text-Same d coding s r₁.0 i.addrs a₁.kept.0 ok.blocks in
      let whole =
        join fl.offset n m xs a₁.bytes a₂.bytes a.bytes a₁.are
          (a₂.are ∙ ap (λ t. take m (drop (fl.offset + length a₁.bytes) t)) same) a.are in
      let len : fl.offset + length a.bytes ≡ fl.offset + length a₁.bytes + length a₂.bytes =
        let l = ap length whole in omega (arith, l, length-append a₁.bytes a₂.bytes) in
      let place =
        entry_self f r.1 fd (record fl { offset = fl.offset + length a.bytes }) a.moved
        ∙ ap (λ o. some (record fl { offset = o })) len
        ∙ sym (
            entry_self r₁.1 r₂.1 fd (record fl₁ { offset = fl₁.offset + length a₂.bytes })
              a₂.moved) in
      (
        r₁,
        e₁,
        record {
          first = a₁.bytes;
          first_result = a₁.result;
          then_read = (
            r₂,
            e₂,
            (
              a₂.bytes,
              a₂.result,
              (
                r,
                e,
                (a.result ∙ ap some whole, place, Unchanged-trans d s r₁.0 r₂.0 a₁.kept a₂.kept),
              ),
            ),
          );
        },
      )

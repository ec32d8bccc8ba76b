-- ===== src/Inode/Agree.antt =====
-- inode/iblock.go: files where the contents of the disk agree behind the journal.
use pp.Prelude.{ℕ, ◌+◌, ◌≡◌, refl, sym, ap, ap₂, ◌∙◌, List, [], ◌∷◌, ◌++◌, length, arith}
use pp.Text.{Bytes}
use pp.Bio.Disk.{Disk}
use pp.Bio.Local.{Same, LocalDisk}
use pp.Jrnl.Replay.State.{IsData}
use pp.Inode.{Inode, Coding, first_inode_addr, is_empty}
use pp.Inode.Contents.{text, Full}
use pp.Inode.Read.{AllFree-Same}
use pp.Inode.Stored.{Plain}
use pp.Inode.Write.{Writable}

-- Contents that agree behind the journal.
abbrev pub Agree : (ℕ → Bytes) → (ℕ → Bytes) → Type 0
Agree f g = (m : ℕ) → IsData m → g m ≡ f m

pub text-Agree :
    (f g h : ℕ → Bytes) (addrs : List ℕ) → Plain f addrs → Agree g h → text h addrs ≡ text g addrs
text-Agree f g h [] p same = refl
text-Agree f g h (a ∷ addrs) (at, lacks, p) same =
    ap₂ (λ x y. x ++ y) (same a at) (text-Agree f g h addrs p same)

Plain-Agree : (f g : ℕ → Bytes) (addrs : List ℕ) → Agree f g → Plain f addrs → Plain g addrs
Plain-Agree f g [] same p = tt
Plain-Agree f g (a ∷ addrs) same (at, lacks, p) =
    (at, rw (same a at) lacks, Plain-Agree f g addrs same p)

pub Full-Agree :
    (f g h : ℕ → Bytes) (addrs : List ℕ) → Agree g h → Plain f addrs → Full g addrs → Full h addrs
Full-Agree f g h [] same p full = tt
Full-Agree f g h (a ∷ []) same (at, lacks, p) full = rw (same a at) full
Full-Agree f g h (a ∷ b ∷ addrs) same (at, lacks, p) (len, full) =
    (ap length (same a at) ∙ len, Full-Agree f g h (b ∷ addrs) same p full)

module _ {S : Type 0} {dsk : Disk S} (d : LocalDisk dsk) (coding : Coding) (start_data : ℕ) where
  -- What can be written stays so while no lock and no block behind the journal changes.
  pub Writable-Agree :
      (inum offset : ℕ) (data_ : Bytes) (i : Inode) (s s' : S)
      → Agree (d.content s) (d.content s')
      → Same (d.held s) (d.held s')
      → Writable d coding start_data inum offset data_ i s
      → Writable d coding start_data inum offset data_ i s'
  Writable-Agree inum offset data_ i s s' same h w =
      let ok = w.readable in
      let at : IsData (first_inode_addr + inum) = (omega arith, omega (arith, ok.below)) in
      let is = same (first_inode_addr + inum) at in
      let len =
        ap length (text-Agree (d.content s) (d.content s) (d.content s') i.addrs w.plain same) in
      record {
        readable = record {
          below = ok.below;
          there = ap is_empty is ∙ ok.there;
          decoded = ap coding.i_decode is ∙ ok.decoded;
          serial = ok.serial;
          free = h _ at.1 ∙ ok.free;
          blocks = AllFree-Same d s s' i.addrs h ok.blocks;
          others = ok.others;
          full = Full-Agree (d.content s) (d.content s) (d.content s') i.addrs same w.plain ok.full;
        };
        apart = w.apart;
        plain = Plain-Agree (d.content s) (d.content s') i.addrs same w.plain;
        slashless = w.slashless;
        size = w.size ∙ sym len;
        some_data = w.some_data;
        inside = omega (arith, len, w.inside);
        short = w.short;
      }

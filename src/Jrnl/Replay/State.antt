-- ===== src/Jrnl/Replay/State.antt =====
-- jrnl/replay.go: what is on the disk, by block number, and what a list of writes makes of it.
use pp.Prelude.{
  ℕ, suc, ◌≤◌, ◌<◌, ◌≡◌, ◌≢◌, refl, ◌∙◌, Bool, true, false, List, [], ◌∷◌, ◌++◌, length, ◌==◌,
  if◌then◌else◌, arith,
}
use pp.Text.{Bytes}
use pp.Text.Decimal.{max_u64}
use pp.Bio.Disk.{Block, Disk}
use pp.Bio.Local.{Same, update, Sets, LocalDisk}
use pp.Jrnl.Blocks.{sb_nr, blk_per_sys, get_log_segment_start, end_jrnl, parse_lb}

-- The contents after a list of writes, the first one first.
abbrev pub write_all : List Block → (ℕ → Bytes) → ℕ → Bytes
write_all [] f = f
write_all (b ∷ bs) f = write_all bs (update f b.nr b.data_)

-- A block behind the journal.
abbrev pub IsData : ℕ → Type 0
IsData n = (end_jrnl ≤ n) × (n ≤ max_u64)

abbrev pub InJournal : ℕ → Type 0
InJournal n = (sb_nr < n) × (n < end_jrnl)

-- Log block `lbn` holds the write of a block.
abbrev pub Holds : (ℕ → Bytes) → ℕ → Block → Bool → Type 0
Holds c lbn b last =
    parse_lb (record { nr = lbn; data_ = c lbn })
    ≡ record { lnr = lbn; rnr = b.nr; rdata = b.data_; last = last }

-- From log block `lbn` on stand the writes of a block and of those behind it; the last one is marked.
abbrev pub InLog : (ℕ → Bytes) → ℕ → Block → List Block → Type 0
InLog c lbn b [] = InJournal lbn × IsData b.nr × Holds c lbn b true
InLog c lbn b (b' ∷ bs) =
    (InJournal lbn × IsData b.nr × Holds c lbn b false) × InLog c (suc lbn) b' bs

-- Only the journal's part of the contents matters.
abbrev pub SameLog : (ℕ → Bytes) → (ℕ → Bytes) → Type 0
SameLog f g = (m : ℕ) → sb_nr < m → m < end_jrnl → g m ≡ f m

pub Holds-SameLog :
    (f g : ℕ → Bytes) (lbn : ℕ) (b : Block) (last : Bool)
    → SameLog f g
    → InJournal lbn
    → Holds f lbn b last
    → Holds g lbn b last
Holds-SameLog f g lbn b last same h k = rw (same lbn h.0 h.1) k

pub InLog-SameLog :
    (f g : ℕ → Bytes) (lbn : ℕ) (b : Block) (bs : List Block)
    → SameLog f g
    → InLog f lbn b bs
    → InLog g lbn b bs
InLog-SameLog f g lbn b [] same (j, n, h) = (j, n, Holds-SameLog f g lbn b true same j h)
InLog-SameLog f g lbn b (b' ∷ bs) same ((j, n, h), t) =
    ((j, n, Holds-SameLog f g lbn b false same j h), InLog-SameLog f g (suc lbn) b' bs same t)

pub Same-trans : {A : Type 0} {f g h : ℕ → A} → Same f g → Same g h → Same f h
Same-trans p q m le = q m le ∙ p m le

pub Sets-data : (f g : ℕ → Bytes) (b : Block) → IsData b.nr → Sets f b.nr b.data_ g → SameLog f g
Sets-data f g b n p m low high = p m (omega arith) ∙ ground arith

update-Same :
    {A : Type 0} (f g : ℕ → A) (n : ℕ) (v : A) → Same f g → Same (update f n v) (update g n v)
update-Same f g n v p m le = ground (arith, p m le)

-- Writes to contents that agree give contents that agree.
pub write_all-Same :
    (bs : List Block) (f g : ℕ → Bytes) → Same f g → Same (write_all bs f) (write_all bs g)
write_all-Same [] f g p = p
write_all-Same (b ∷ bs) f g p = write_all-Same bs _ _ (update-Same f g b.nr b.data_ p)

pub write_all-append :
    (bs cs : List Block) (f : ℕ → Bytes) → write_all (bs ++ cs) f ≡ write_all cs (write_all bs f)
write_all-append [] cs f = refl
write_all-append (b ∷ bs) cs f = write_all-append bs cs (update f b.nr b.data_)

-- What a segment holds: a first block and those behind it.
abbrev pub Segment : Type 0
Segment = Block × List Block

-- The writes of the marked segments, from segment `i` on.
abbrev pub writes : (ℕ → Segment) → ℕ → Bytes → List Block
writes seg i [] = []
writes seg i (v ∷ bitmap) =
    let rest = writes seg (suc i) bitmap in
    if v == b'1' then ((seg i).0 ∷ (seg i).1) ++ rest else rest

-- Every marked segment is in the log, and is not longer than a transaction may be.
abbrev pub AllLogged : (ℕ → Bytes) → (ℕ → Segment) → ℕ → Bytes → Type 0
AllLogged c seg i [] = Unit
AllLogged c seg i (v ∷ bitmap) =
    ((v == b'1') ≡ true
      → (suc (length (seg i).1) ≤ blk_per_sys)
        × InLog c (get_log_segment_start i) (seg i).0 (seg i).1)
    × AllLogged c seg (suc i) bitmap

pub AllLogged-SameLog :
    (f g : ℕ → Bytes) (seg : ℕ → Segment) (i : ℕ) (bitmap : Bytes)
    → SameLog f g
    → AllLogged f seg i bitmap
    → AllLogged g seg i bitmap
AllLogged-SameLog f g seg i [] same h = tt
AllLogged-SameLog f g seg i (v ∷ bitmap) same h = (
  λ m. ((h.0 m).0, InLog-SameLog f g (get_log_segment_start i) (seg i).0 (seg i).1 same (h.0 m).1),
  AllLogged-SameLog f g seg (suc i) bitmap same h.1,
)

pub write_all-SameData :
    (bs : List Block) (f g : ℕ → Bytes)
    → ((m : ℕ) → IsData m → g m ≡ f m)
    → (m : ℕ) → IsData m
    → write_all bs g m ≡ write_all bs f m
write_all-SameData [] f g p = p
write_all-SameData (b ∷ bs) f g p = write_all-SameData bs _ _ (λ m h. ground (arith, p m h))

-- Contents that agree outside the superblock.
abbrev pub SameButSb : (ℕ → Bytes) → (ℕ → Bytes) → Type 0
SameButSb f g = (m : ℕ) → m ≤ max_u64 → m ≢ sb_nr → g m ≡ f m

pub write_all-SameButSb :
    (bs : List Block) (f g : ℕ → Bytes)
    → SameButSb f g
    → SameButSb (write_all bs f) (write_all bs g)
write_all-SameButSb [] f g p = p
write_all-SameButSb (b ∷ bs) f g p = write_all-SameButSb bs _ _ (λ m le n. ground (arith, p m le n))

module _ {S : Type 0} {dsk : Disk S} (d : LocalDisk dsk) where
  -- The superblock is held, and no block of the log is.
  pub record Ready (s : S) : Type 0 where
    pub sb : d.held s sb_nr ≡ true
    pub log : (m : ℕ) → InJournal m → d.held s m ≡ false

-- ===== src/Jrnl/Setup/Atomic.antt =====
-- jrnl/sb.go: a crash leaves all of a commit or nothing of it, once `InitSb` has run.
use pp.Prelude.{
  ℕ, suc, ◌*◌, ◌≤◌, ◌<◌, ◌≡◌, refl, ap, subst, zero, replicate, ◌∙◌, ◌==◌, Bool, Bool-cases, inl,
  inr, true, false, some, take, ltb, arith, Returns,
}
use pp.Text.{Bytes, Lacks}
use pp.Bio.Disk.{Block, Disk, bget, brelse}
use pp.Bio.Local.{Same, Sets, StillFree, LocalDisk}
use pp.Jrnl.RoundTrip.{parse_sb-flatten_sb}
use pp.Jrnl.Replay.{zero_bitmap}
use pp.Jrnl.Blocks.{slash, LogSb, sb_nr, blk_per_sys, parse_sb, flatten_sb}
use pp.Jrnl.Replay.{push_sb, released_or, resurrect}
use pp.Jrnl.Replay.State.{
  InJournal, SameButSb, Ready, write_all, Segment, writes, AllLogged, AllLogged-SameLog,
  write_all-SameButSb,
}
use pp.Jrnl.Replay.Twice.{write_all-take}
use pp.Jrnl.Replay.Committed.{sb_text, push_sb-Ready, resurrect-Cleared}
use pp.Jrnl.Setup.{fresh_sb, init_sb}

-- What is free in between is free again, and so is the lock that was taken for it.
pub StillFree-taken :
    (n : ℕ) (f g h : ℕ → Bool) → Sets f n true g → StillFree g h → h n ≡ false → StillFree f h
StillFree-taken n f g h taken still free m le z = elim (Bool-cases (n == m)) [
  | inl t ↦ let same : n ≡ m = ground (arith, t) in subst (λ k. h k ≡ false) same free
  | inr t ↦ still m le (taken m le ∙ rw t z)
]

pub zeros-Lacks : (n : ℕ) → Lacks slash (replicate n b'0')
zeros-Lacks zero = tt
zeros-Lacks (suc n) = (λ e. omega (arith, e), zeros-Lacks n)

-- A superblock with a thousand free segments, no transaction and no commit.
abbrev pub empty_sb : LogSb
empty_sb = record { bitmap = replicate 1000 b'0'; cnt = 0; commit = 0 }

-- It is read back as it was.
empty_sb-parsed : parse_sb (record { nr = sb_nr; data_ = sb_text empty_sb }) ≡ empty_sb
unfolding flatten_sb
empty_sb-parsed = parse_sb-flatten_sb empty_sb (zeros-Lacks 1000) (omega arith) (omega arith)

module _ {S : Type 0} {dsk : Disk S} (d : LocalDisk dsk) where
  -- Nothing of the journal is held, as after a crash, when the leases are over.
  pub record Idle (s : S) : Type 0 where
    pub sb : d.held s sb_nr ≡ false
    pub log : (m : ℕ) → InJournal m → d.held s m ≡ false

  -- The superblock was taken.
  pub record Opened (fuel : ℕ) (sb : LogSb) (s : S) : Type 0 where
    pub state : S
    pub block : Block
    pub got : bget dsk (suc fuel) sb_nr s ≡ some (state, block)
    pub parsed : parse_sb block ≡ sb
    pub ready : Ready d state
    pub same : Same (d.content s) (d.content state)
    pub taken : Sets (d.held s) sb_nr true (d.held state)

  pub open_sb :
      (fuel : ℕ) (sb : LogSb) (s : S)
      → Idle s
      → parse_sb (record { nr = sb_nr; data_ = d.content s sb_nr }) ≡ sb
      → Opened fuel sb s
  open_sb fuel sb s idle p =
      let (r, e, (eb, c, h)) = d.get fuel sb_nr s (omega arith) idle.sb in
      record {
        state = r.0;
        block = r.1;
        got = e;
        parsed = ap parse_sb eb ∙ p;
        ready = record {
          sb = h sb_nr (omega arith) ∙ ground arith;
          log = λ m i. h m (omega (arith, i)) ∙ ground (arith, idle.log m i);
        };
        same = c;
        taken = h;
      }

  -- The contents, with an empty superblock, which is read as such, and nothing of the journal held.
  abbrev pub SetUp : (ℕ → Bytes) → S × Unit {0} → Type 0
  SetUp f r =
      Sets f sb_nr (sb_text empty_sb) (d.content r.0)
      × (parse_sb (record { nr = sb_nr; data_ = d.content r.0 sb_nr }) ≡ empty_sb)
      × Idle r.0

  -- Contents with the text of an empty superblock.
  to-SetUp :
      (f : ℕ → Bytes) (r : S × Unit {0})
      → Sets f sb_nr (sb_text empty_sb) (d.content r.0)
      → Idle r.0
      → SetUp f r
  to-SetUp f r c idle = (
    c,
    ap (λ t. parse_sb (record { nr = sb_nr; data_ = t })) (c sb_nr (omega arith)) ∙ empty_sb-parsed,
    idle,
  )

  pub release-Idle :
      (sb : LogSb) (s : S)
      → Ready d s
      → Same (d.content s) (d.content (brelse dsk (flatten_sb sb) s).0)
        × Idle (brelse dsk (flatten_sb sb) s).0
        × StillFree (d.held s) (d.held (brelse dsk (flatten_sb sb) s).0)
  unfolding flatten_sb
  release-Idle sb s ready =
      let (c, h) = d.relse (flatten_sb sb) s (omega arith) in
      (
        c,
        record {
          sb = h sb_nr (omega arith) ∙ ground arith;
          log = λ m i. h m (omega (arith, i)) ∙ ground (arith, ready.log m i);
        },
        λ m le f. h m le ∙ ground (arith, f),
      )

  -- On a disk of one client with no lock of the journal held, whose superblock says that a commit was under way and
  -- whose marked segments are in the log: if the blocks behind the journal are as some contents
  -- with any number of the commit's writes done, in order, then `InitSb` does not fail, and leaves those contents with all of
  -- the writes done, a superblock of a thousand free segments with no transaction and no commit, and no lock of the
  -- journal held.
  pub init_sb-recovers :
      (fuel : ℕ) (sb : LogSb) (seg : ℕ → Segment) (k : ℕ) (before : ℕ → Bytes) (s : S)
      → 2 * blk_per_sys ≤ suc fuel
      → Idle s
      → parse_sb (record { nr = sb_nr; data_ = d.content s sb_nr }) ≡ sb
      → 0 < sb.commit
      → AllLogged (d.content s) seg 0 sb.bitmap
      → SameButSb (write_all (take k (writes seg 0 sb.bitmap)) before) (d.content s)
      → Returns (init_sb dsk (suc fuel) s) (SetUp (write_all (writes seg 0 sb.bitmap) before))
  unfolding init_sb released_or zero_bitmap
  init_sb-recovers fuel sb seg k before s enough idle p under_way logged cut =
      let o = open_sb fuel sb s idle p in
      let ws = writes seg 0 sb.bitmap in
      let b : ltb 0 sb.commit ≡ true = ground arith in
      let ((s₁, t), e, (okay, ready, c, _)) =
        resurrect-Cleared d (suc fuel) sb seg o.state enough o.ready
          (AllLogged-SameLog _ _ seg 0 sb.bitmap (λ m low high. o.same m (omega arith)) logged) in
      let g : resurrect dsk (suc fuel) sb o.state ≡ some (s₁, true) =
        e ∙ ap (λ x. some (s₁, x)) okay in
      let (c', i, _) = release-Idle sb s₁ ready in
      let whole : SameButSb (write_all ws before) (write_all ws (d.content o.state)) = λ m le n.
        write_all-SameButSb ws _ _ (λ m le n. o.same m le ∙ cut m le n) m le n
        ∙ write_all-take k ws before m in
      (
        _,
        rw (o.got, o.parsed, b, g) refl,
        to-SetUp _ _ (λ m le. c' m le ∙ c m le ∙ ground (arith, whole m le)) i,
      )

  -- On a disk of one client with no lock of the journal held, whose superblock says that no commit was under way, `InitSb`
  -- does not fail, leaves every other block as it was, a superblock of a thousand free segments with no transaction and no
  -- commit, and no lock of the journal held: what was not committed is forgotten.
  pub init_sb-forgets :
      (fuel : ℕ) (sb : LogSb) (s : S)
      → Idle s
      → parse_sb (record { nr = sb_nr; data_ = d.content s sb_nr }) ≡ sb
      → sb.commit ≡ 0
      → Returns (init_sb dsk (suc fuel) s) (SetUp (d.content s))
  unfolding init_sb released_or zero_bitmap
  init_sb-forgets fuel sb s idle p none_ =
      let o = open_sb fuel sb s idle p in
      let b : ltb 0 sb.commit ≡ false = ground arith in
      let ((s₁, t), e, (okay, ready, c, _)) = push_sb-Ready d (fresh_sb sb) o.state o.ready in
      let g : push_sb dsk (fresh_sb sb) o.state ≡ some (s₁, true) =
        e ∙ ap (λ x. some (s₁, x)) okay in
      let (c', i, _) = release-Idle sb s₁ ready in
      (
        _,
        rw (o.got, o.parsed, b, g) refl,
        to-SetUp _ _ (λ m le. c' m le ∙ c m le ∙ ground (arith, o.same m le)) i,
      )

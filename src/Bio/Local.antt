-- ===== src/Bio/Local.antt =====
-- What the journal relies on of bio/bio.go where one client runs: a disk with contents and locks by
-- block number. Block numbers are unsigned words of 64 bits.
use pp.Prelude.{ℕ, suc, ◌≤◌, ◌≡◌, Bool, true, false, ◌==◌, if◌then◌else◌, Returns}
use pp.Text.{Bytes}
use pp.Text.Decimal.{max_u64}
use pp.Bio.Disk.{Block, ok, err_no_lock, Disk, bget, bpush, brenew, brelse}

-- Two functions of block numbers agree, or differ at one number only.
abbrev pub Same : {A : Type 0} → (ℕ → A) → (ℕ → A) → Type 0
Same f g = (m : ℕ) → m ≤ max_u64 → g m ≡ f m

abbrev pub update : {A : Type 0} → (ℕ → A) → ℕ → A → ℕ → A
update f n v m = if n == m then v else f m

abbrev pub Sets : {A : Type 0} → (ℕ → A) → ℕ → A → (ℕ → A) → Type 0
Sets f n v g = Same (update f n v) g

-- A lock that was free is free again.
abbrev pub StillFree : (ℕ → Bool) → (ℕ → Bool) → Type 0
StillFree f g = (m : ℕ) → m ≤ max_u64 → f m ≡ false → g m ≡ false

pub record LocalDisk {S : Type 0} (dsk : Disk S) : Type 0 where
  pub content : S → ℕ → Bytes
  pub held : S → ℕ → Bool
  -- A block whose lock is free is got in one round, and its lock is held then.
  pub get :
      (fuel n : ℕ) (s : S)
      → n ≤ max_u64
      → held s n ≡ false
      → Returns (bget dsk (suc fuel) n s) (λ r.
        (r.1 ≡ record { nr = n; data_ = content s n })
        × Same (content s) (content r.0)
        × Sets (held s) n true (held r.0))
  -- A push writes a block that is held, and refuses another one.
  pub push :
      (b : Block) (s : S)
      → b.nr ≤ max_u64
      → held s b.nr ≡ true
      → ((bpush dsk b s).1 ≡ ok)
        × Sets (content s) b.nr b.data_ (content (bpush dsk b s).0)
        × Same (held s) (held (bpush dsk b s).0)
  pub refuse :
      (b : Block) (s : S)
      → b.nr ≤ max_u64
      → held s b.nr ≡ false
      → ((bpush dsk b s).1 ≡ err_no_lock)
        × Same (content s) (content (bpush dsk b s).0)
        × Same (held s) (held (bpush dsk b s).0)
  pub relse :
      (b : Block) (s : S)
      → b.nr ≤ max_u64
      → Same (content s) (content (brelse dsk b s).0)
        × Sets (held s) b.nr false (held (brelse dsk b s).0)
  -- A lock that is held can be renewed.
  pub renew :
      (b : Block) (s : S)
      → b.nr ≤ max_u64
      → held s b.nr ≡ true
      → ((brenew dsk b s).1 ≡ ok)
        × Same (content s) (content (brenew dsk b s).0)
        × Same (held s) (held (brenew dsk b s).0)

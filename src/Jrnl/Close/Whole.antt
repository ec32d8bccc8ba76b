-- ===== src/Jrnl/Close/Whole.antt =====
-- jrnl/txn.go and jrnl/replay.go: a transaction from its begin to its end.
use pp.Prelude.{
  ℕ, suc, ◌+◌, ◌≤◌, ◌<◌, ◌≡◌, refl, ap, sym, subst, ◌∙◌, true, false, Option, some, List, [], ◌∷◌,
  length, ◌>>=◌, arith, Returns,
}
use pp.Text.{Bytes}
use pp.Text.Decimal.{max_u64}
use pp.Bio.Disk.{Block, Disk}
use pp.Bio.Local.{LocalDisk}
use pp.Jrnl.Blocks.{blk_per_sys, end_jrnl, get_log_segment_start}
use pp.Jrnl.Txn.{TxnHandle, write_block, begin_transaction}
use pp.Jrnl.Txn.Written.{Loggable, LoggedAt, write_block-WroteBlock}
use pp.Jrnl.Replay.State.{IsData, InJournal, Holds, InLog}
use pp.Jrnl.Setup.Atomic.{Idle}
use pp.Jrnl.Close.{end_transaction}

abbrev pub AllLoggable : List Block → Type 0
AllLoggable [] = Unit
AllLoggable (b ∷ bs) = Loggable b × AllLoggable bs

-- Blocks that were logged one behind the other, none of them marked as the last.
abbrev pub Unmarked : (ℕ → Bytes) → ℕ → List Block → Type 0
Unmarked c lbn [] = Unit
Unmarked c lbn (b ∷ bs) =
    (InJournal lbn × IsData b.nr × Holds c lbn b false) × Unmarked c (suc lbn) bs

-- The contents outside blocks `lo` to `hi` are kept.
abbrev pub Outside : ℕ → ℕ → (ℕ → Bytes) → (ℕ → Bytes) → Type 0
Outside lo hi f g = (m : ℕ) → m ≤ max_u64 → (m < lo → g m ≡ f m) × (hi ≤ m → g m ≡ f m)

abbrev pub final : Block → List Block → Block
final b [] = b
final b (b' ∷ bs) = final b' bs

pub final-Loggable : (b : Block) (bs : List Block) → AllLoggable (b ∷ bs) → Loggable (final b bs)
final-Loggable b [] h = h.0
final-Loggable b (b' ∷ bs) h = final-Loggable b' bs h.1

pub final-Holds :
    (c : ℕ → Bytes) (lbn : ℕ) (b : Block) (bs : List Block)
    → Unmarked c lbn (b ∷ bs)
    → InJournal (lbn + length bs) × Holds c (lbn + length bs) (final b bs) false
final-Holds c lbn b [] ((j, n, h), t) =
    let q : lbn ≡ lbn + 0 = omega arith in subst (λ m. InJournal m × Holds c m b false) q (j, h)
final-Holds c lbn b (b' ∷ bs) (h, t) =
    let q : suc lbn + length bs ≡ lbn + suc (length bs) = omega arith in
    subst (λ m. InJournal m × Holds c m (final b' bs) false) q (final-Holds c (suc lbn) b' bs t)

-- With its last block marked, the segment can be replayed.
pub marked-InLog :
    (f g : ℕ → Bytes) (lbn : ℕ) (b : Block) (bs : List Block)
    → Unmarked f lbn (b ∷ bs)
    → ((m : ℕ) → lbn ≤ m → m < lbn + length bs → g m ≡ f m)
    → Holds g (lbn + length bs) (final b bs) true
    → InLog g lbn b bs
marked-InLog f g lbn b [] ((j, n, h), t) same mark =
    let q : lbn + 0 ≡ lbn = omega arith in (j, n, subst (λ l. Holds g l b true) q mark)
marked-InLog f g lbn b (b' ∷ bs) ((j, n, h), t) same mark =
    let q : lbn + suc (length bs) ≡ suc lbn + length bs = omega arith in
    (
      (j, n, rw (same lbn (omega arith) (omega arith)) h),
      marked-InLog f g (suc lbn) b' bs t (λ m lo hi. same m (omega arith) (omega arith))
          (subst (λ m. Holds g m (final b' bs) true) q mark),
    )

module _ {S : Type 0} (dsk : Disk S) where
  -- A caller's writes, one behind the other.
  unfoldable pub write_blocks : ℕ → TxnHandle → List Block → S → Option (S × TxnHandle)
  write_blocks fuel t [] s = some (s, t)
  write_blocks fuel t (b ∷ bs) s = do
    (s', t', done) ← write_block dsk fuel t b s
    write_blocks fuel t' bs s'

  -- A transaction of a caller.
  unfoldable pub run_transaction : ℕ → List Block → S → Option (S × Unit {0})
  run_transaction fuel bs s = do
    (s₁, t) ← begin_transaction dsk fuel s
    (s₂, t') ← write_blocks fuel t bs s₁
    end_transaction dsk fuel t' s₂

module _ {S : Type 0} {dsk : Disk S} (d : LocalDisk dsk) where
  pub record Wrote (lbn : ℕ) (bs : List Block) (t : TxnHandle) (s : S) (r : S × TxnHandle)
      : Type 0 where
    pub handle : r.1 ≡ record t { offset = t.offset + length bs }
    pub idle : Idle d r.0
    pub log : Unmarked (d.content r.0) lbn bs
    pub others : Outside lbn (lbn + length bs) (d.content s) (d.content r.0)

  -- A block was logged in front of what was written then.
  pub Wrote-cons :
      (t : TxnHandle) (b : Block) (bs : List Block) (lbn : ℕ) (s s₁ : S) (r : S × TxnHandle)
      → InJournal lbn
      → Loggable b
      → LoggedAt d lbn b s s₁
      → Wrote (suc lbn) bs (record t { offset = t.offset + 1 }) s₁ r
      → Wrote lbn (b ∷ bs) t s r
  Wrote-cons t b bs lbn s s₁ r j hb (idle, holds, others) w =
      let off : t.offset + 1 + length bs ≡ t.offset + suc (length bs) = omega arith in
      let past : lbn + suc (length bs) ≡ suc lbn + length bs = omega arith in
      record {
        handle = w.handle ∙ rw off refl;
        idle = w.idle;
        log = ((j, hb.0, rw ((w.others lbn (omega (arith, j))).0 (omega arith)) holds), w.log);
        others = λ m le. (
          λ lo.
              (w.others m le).0 (omega (arith, lo))
              ∙ others m le (λ z. absurd (omega (arith, z, lo))),
          λ hi.
              (w.others m le).1 (omega (arith, hi, past))
              ∙ others m le (λ z. absurd (omega (arith, z, hi))),
        );
      }

  pub write_blocks-Wrote :
      (fuel : ℕ) (t : TxnHandle) (bs : List Block) (lbn : ℕ) (s : S)
      → t.offset + length bs ≤ blk_per_sys
      → lbn ≡ get_log_segment_start t.blk_seg + t.offset
      → lbn + length bs ≤ end_jrnl
      → AllLoggable bs
      → Idle d s
      → Returns (write_blocks dsk (suc fuel) t bs s) (Wrote lbn bs t s)
  unfolding write_blocks
  write_blocks-Wrote fuel t [] lbn s room at low h idle =
      let q : t.offset + 0 ≡ t.offset = omega arith in
      (
        _,
        refl,
        record {
          handle = rw q refl;
          idle = idle;
          log = tt;
          others = λ m le. (λ _. refl, λ _. refl);
        },
      )
  write_blocks-Wrote fuel t (b ∷ bs) lbn s room at low (hb, h) idle =
      let ((s₁, t₁, done), e, (q, okay, (idle₁, holds, others), locks)) =
        write_block-WroteBlock d fuel t b s (omega (arith, room)) (omega (arith, at, low)) hb
          idle in
      let next : TxnHandle = record t { offset = t.offset + 1 } in
      let (r, f, w) =
        write_blocks-Wrote fuel next bs (suc lbn) s₁ (omega (arith, room)) (omega (arith, at))
          (omega (arith, low)) h idle₁ in
      let e' : write_block dsk (suc fuel) t b s ≡ some (s₁, next, done) =
        e ∙ ap (λ x. some (s₁, x, done)) q in
      let logged : LoggedAt d lbn b s s₁ =
        subst (λ m. LoggedAt d m b s s₁) (sym at) (idle₁, holds, others) in
      (r, rw e' f, Wrote-cons t b bs lbn s s₁ r (omega (arith, at, low)) hb logged w)

-- ===== src/Jrnl/Close/Aborted.antt =====
-- jrnl/txn.go: a transaction that is aborted leaves nothing behind.
use pp.Prelude.{
  ℕ, zero, suc, ◌≤◌, ◌<◌, ◌≡◌, refl, ap, ◌∙◌, true, false, Option, List, length, replicate, ltb,
  ◌>>=◌, arith, Returns,
}
use pp.Bio.Disk.{Block, Disk, bpush}
use pp.Bio.Local.{Sets, LocalDisk}
use pp.Jrnl.Blocks.{LogSb, sb_nr, blk_per_sys, parse_sb, flatten_sb}
use pp.Jrnl.RoundTrip.{parse_sb-flatten_sb}
use pp.Jrnl.Txn.{pushed_or, begin_transaction}
use pp.Jrnl.Replay.State.{IsData, InJournal}
use pp.Jrnl.Replay.Committed.{sb_text, bpush-Ready}
use pp.Jrnl.Setup.Atomic.{Idle, open_sb, release-Idle, zeros-Lacks}
use pp.Jrnl.Close.{has_valid, last_block, unclaim, end_transaction, unmark, abort_transaction}
use pp.Jrnl.Close.Ended.{mark_last-SameBut, leave-waits}
use pp.Jrnl.Close.Whole.{AllLoggable, write_blocks}
use pp.Jrnl.Close.Atomic.{no_segments, first_taken, first_taken-parsed, begin-InTxn}

-- The superblock once the only segment is given back, and the transaction still counted.
abbrev given_back : ℕ → LogSb
given_back n = record { bitmap = replicate (suc n) b'0'; cnt = 1; commit = 0 }

given_back-parsed :
    (n : ℕ) → parse_sb (record { nr = sb_nr; data_ = sb_text (given_back n) }) ≡ given_back n
unfolding flatten_sb
given_back-parsed n =
    parse_sb-flatten_sb (given_back n) (zeros-Lacks (suc n)) (omega arith) (omega arith)

no_segments-parsed :
    (n : ℕ) → parse_sb (record { nr = sb_nr; data_ = sb_text (no_segments n) }) ≡ no_segments n
unfolding flatten_sb
no_segments-parsed n =
    parse_sb-flatten_sb (no_segments n) (zeros-Lacks (suc n)) (omega arith) (omega arith)

zeros-invalid : (n : ℕ) → has_valid (replicate n b'0') ≡ false
zeros-invalid zero = refl
zeros-invalid (suc n) = zeros-invalid n

last_block-InJournal :
    (k : ℕ) → k ≤ blk_per_sys → InJournal (last_block (record { blk_seg = 0; offset = k }))
last_block-InJournal k h = ground arith

module _ {S : Type 0} (dsk : Disk S) where
  -- A transaction that a caller gives up.
  unfoldable pub run_abort : ℕ → List Block → S → Option (S × Unit {0})
  run_abort fuel bs s = do
    (s₁, t) ← begin_transaction dsk fuel s
    (s₂, t') ← write_blocks dsk fuel t bs s₁
    abort_transaction dsk fuel t' s₂

module _ {S : Type 0} {dsk : Disk S} (d : LocalDisk dsk) where
  unmark-Unclaimed :
      (fuel seg : ℕ) (sb : LogSb) (s : S)
      → Idle d s
      → parse_sb (record { nr = sb_nr; data_ = d.content s sb_nr }) ≡ sb
      → sb.commit ≡ 0
      → seg < length sb.bitmap
      → Returns
          (unmark dsk (suc fuel) seg s)
          (λ r. Idle d r.0 × Sets (d.content s) sb_nr (sb_text (unclaim seg sb)) (d.content r.0))
  unfolding unmark pushed_or
  unmark-Unclaimed fuel seg sb s idle p none_ lt =
      let o = open_sb d fuel sb s idle p in
      let b : ltb 0 sb.commit ≡ false = ground arith in
      let b' : ltb seg (length sb.bitmap) ≡ true = ground arith in
      let nsb = unclaim seg sb in
      let (e, ready, c, _) = bpush-Ready d nsb o.state o.ready in
      let (c', i, _) = release-Idle d nsb (bpush dsk (flatten_sb nsb) o.state).0 ready in
      (
        _,
        rw (o.got, o.parsed, b, b', e) refl,
        (i, λ m le. c' m le ∙ c m le ∙ ground (arith, o.same m le)),
      )

  -- The blocks behind the journal are as they were, and so is what the superblock says.
  abbrev pub Forgotten : ℕ → S → S × Unit {0} → Type 0
  Forgotten n s r =
      Idle d r.0
      × ((m : ℕ) → IsData m → d.content r.0 m ≡ d.content s m)
      × (parse_sb (record { nr = sb_nr; data_ = d.content r.0 sb_nr }) ≡ no_segments n)

  aborted-Forgotten :
      (fuel n k : ℕ) (s₀ s : S)
      → k ≤ blk_per_sys
      → Idle d s
      → d.content s sb_nr ≡ sb_text (first_taken n)
      → ((m : ℕ) → IsData m → d.content s m ≡ d.content s₀ m)
      → Returns
          (abort_transaction dsk (suc fuel) (record { blk_seg = 0; offset = k }) s)
          (Forgotten n s₀)
  unfolding abort_transaction end_transaction
  aborted-Forgotten fuel n k s₀ s short idle text same =
      let says : d.content s sb_nr ≡ sb_text (first_taken n)
          → parse_sb (record { nr = sb_nr; data_ = d.content s sb_nr }) ≡ first_taken n =
        λ e. ap (λ t. parse_sb (record { nr = sb_nr; data_ = t })) e ∙ first_taken-parsed n in
      let (r₁, e₁, (idle₁, c₁)) =
        unmark-Unclaimed fuel 0 (first_taken n) s idle (says text) refl (omega arith) in
      let j = last_block-InJournal k short in
      let (r₂, e₂, (idle₂, c₂)) =
        mark_last-SameBut d fuel (last_block (record { blk_seg = 0; offset = k })) r₁.0 j idle₁ in
      let text₂ : d.content r₂.0 sb_nr ≡ sb_text (given_back n) =
        c₂ sb_nr (omega arith) (λ z. absurd (omega (arith, z, j))) ∙ c₁ sb_nr (omega arith) in
      let p₂ : parse_sb (record { nr = sb_nr; data_ = d.content r₂.0 sb_nr }) ≡ given_back n =
        ap (λ t. parse_sb (record { nr = sb_nr; data_ = t })) text₂ ∙ given_back-parsed n in
      let (r₃, e₃, (idle₃, c₃)) =
        leave-waits d fuel (given_back n) r₂.0 idle₂ p₂ refl (zeros-invalid n) in
      let data_ : (m : ℕ) → IsData m → d.content r₃.0 m ≡ d.content s₀ m = λ m i.
        c₃ m i.1
        ∙ ground (arith, i.0)
        ∙ c₂ m i.1 (λ z. absurd (omega (arith, z, i.0, j)))
        ∙ c₁ m i.1
        ∙ ground (arith, i.0)
        ∙ same m i in
      let sb : parse_sb (record { nr = sb_nr; data_ = d.content r₃.0 sb_nr }) ≡ no_segments n =
        ap (λ t. parse_sb (record { nr = sb_nr; data_ = t })) (c₃ sb_nr (omega arith))
        ∙ no_segments-parsed n in
      (r₃, rw (e₁, e₂) e₃, (idle₃, data_, sb))

  -- On a disk of one client with no lock of the journal held and a superblock with no segment taken, a transaction that
  -- writes up to a hundred blocks behind the journal, without a slash in their data, and is aborted, does not block or
  -- fail, and leaves every block behind the journal, and what the superblock says, as they were.
  pub run_abort-Forgotten :
      (fuel n : ℕ) (bs : List Block) (s : S)
      → length bs ≤ blk_per_sys
      → AllLoggable bs
      → Idle d s
      → parse_sb (record { nr = sb_nr; data_ = d.content s sb_nr }) ≡ no_segments n
      → Returns (run_abort dsk (suc fuel) bs s) (Forgotten n s)
  unfolding run_abort
  run_abort-Forgotten fuel n bs s short h idle p =
      let t = begin-InTxn d fuel n bs s short h idle p in
      let (r, e, a) = aborted-Forgotten fuel n (length bs) s t.state short t.idle t.text t.same in
      (r, rw (t.begun, t.wrote) e, a)

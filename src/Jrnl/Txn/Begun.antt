-- ===== src/Jrnl/Txn/Begun.antt =====
-- jrnl/txn.go: what `BeginTransaction` does on a disk of one client.
use pp.Prelude.{
  ℕ, zero, suc, ◌+◌, ◌%◌, ◌^◌, ◌<◌, ◌≡◌, refl, ap, ◌∙◌, true, false, if◌then◌else◌, some, [], ◌∷◌,
  get_elem?, set, ltb, ◌==◌, some-cancel, arith, Returns, ◌≢◌,
}
use pp.Text.{Bytes}
use pp.Bio.Disk.{Disk, bpush, brelse}
use pp.Bio.Local.{Same, Sets, LocalDisk}
use pp.Jrnl.Blocks.{LogSb, sb_nr, parse_sb, flatten_sb}
use pp.Jrnl.Txn.{TxnHandle, free_segment, claim_segment, pushed_or, begin_with, begin_transaction}
use pp.Jrnl.Txn.Written.{lock_back}
use pp.Jrnl.Replay.Committed.{sb_text, bpush-Ready}
use pp.Jrnl.Setup.Atomic.{Idle, open_sb, release-Idle}

-- Segment `i` is free, and none before it is.
pub record IsFirstFree (bitmap : Bytes) (i : ℕ) : Type 0 where
  pub free : get_elem? bitmap i ≡ some b'0'
  pub before : (j c : ℕ) → j < i → get_elem? bitmap j ≡ some c → c ≢ b'0'

-- It is the segment found.
IsFirstFree-found : (bitmap : Bytes) (i : ℕ) → IsFirstFree bitmap i → free_segment bitmap ≡ some i
unfolding free_segment
IsFirstFree-found [] i h = let e = h.free in absurd cc
IsFirstFree-found (c ∷ s) zero h =
    let e = h.free in
    let q : c ≡ b'0' = some-cancel e in
    let same : (c == b'0') ≡ true = ground (arith, q) in rw same refl
IsFirstFree-found (c ∷ s) (suc i) h =
    let ne = h.before 0 c (omega arith) refl in
    let other : (c == b'0') ≡ false = ground (arith, ne) in
    let rest =
      IsFirstFree-found s i
        (record { free = h.free; before = λ j x lt q. h.before (suc j) x (omega (arith, lt)) q }) in
    rw (other, rest) refl

-- The superblock with segment `i` marked, and the transaction counted in a word of 64 bits.
abbrev pub marked : ℕ → LogSb → LogSb
marked i sb = record {
  bitmap = set sb.bitmap i b'1';
  cnt = (sb.cnt + 1) % 2 ^ 64;
  commit = sb.commit;
}

module _ {S : Type 0} {dsk : Disk S} (d : LocalDisk dsk) where
  abbrev pub Begun : LogSb → ℕ → S → S × TxnHandle → Type 0
  Begun sb i s r =
      (r.1 ≡ record { blk_seg = i; offset = 0 })
      × Idle d r.0
      × Sets (d.content s) sb_nr (sb_text (marked i sb)) (d.content r.0)
      × Same (d.held s) (d.held r.0)

  -- On a disk of one client with no lock of the journal held, with no commit under way and a free segment, `BeginTransaction`
  -- returns after one round: it gives the first free segment, marks it with a 1 in the bitmap, counts the transaction
  -- modulo `2 ^ 64`, and changes no other block and no lock.
  pub begin_transaction-Begun :
      (fuel : ℕ) (sb : LogSb) (i : ℕ) (s : S)
      → Idle d s
      → parse_sb (record { nr = sb_nr; data_ = d.content s sb_nr }) ≡ sb
      → sb.commit ≡ 0
      → IsFirstFree sb.bitmap i
      → Returns (begin_transaction dsk (suc fuel) s) (Begun sb i s)
  unfolding begin_transaction begin_with pushed_or flatten_sb
  begin_transaction-Begun fuel sb i s idle p none_ first =
      let free = IsFirstFree-found sb.bitmap i first in
      let o = open_sb d fuel sb s idle p in
      let b : ltb 0 sb.commit ≡ false = ground arith in
      let nsb = claim_segment i sb in
      let (e, ready, c, _) = bpush-Ready d nsb o.state o.ready in
      let s₁ = (bpush dsk (flatten_sb nsb) o.state).0 in
      let (_, _, kept) = d.push (flatten_sb nsb) o.state (omega arith) o.ready.sb in
      let (_, h') = d.relse (flatten_sb nsb) s₁ (omega arith) in
      let back : Same (d.held s) (d.held (brelse dsk (flatten_sb nsb) s₁).0) = λ m le.
        h' m le
        ∙ ap (λ x. if sb_nr == m then false else x) (kept m le ∙ o.taken m le)
        ∙ lock_back (d.held s) sb_nr sb_nr m refl idle.sb in
      let (c', i', _) = release-Idle d nsb (bpush dsk (flatten_sb nsb) o.state).0 ready in
      (
        _,
        rw (o.got, o.parsed, b, free, e) refl,
        (refl, i', (λ m le. c' m le ∙ c m le ∙ ground (arith, o.same m le)), back),
      )

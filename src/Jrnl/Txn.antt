-- ===== src/Jrnl/Txn.antt =====
-- jrnl/txn.go: `WriteBlock` and `BeginTransaction`, over a disk.
pub mod Logged
pub mod Begun
pub mod Written
use pp.Prelude.{
  ℕ, zero, suc, ◌+◌, ◌%◌, Bool, true, false, Option, none, some, List, [], ◌∷◌, set, ltb, leb, ◌==◌,
  if◌then◌else◌, ◌>>=◌,
}
use pp.Text.{Bytes}
use pp.Text.Decimal.{two64}
use pp.Bio.Disk.{Block, BioError, ok, err_no_lock, Disk, bget, bpush, brelse}
use pp.Jrnl.Blocks.{
  LogBlock, LogSb, sb_nr, blk_per_sys, get_log_segment_start, parse_sb, flatten_sb, parse_lb,
  flatten_lb,
}

pub record TxnHandle : Type 0 where
  pub blk_seg : ℕ
  pub offset : ℕ

-- The first segment whose mark is '0'. A bitmap is ASCII, so its bytes are its runes.
unfoldable pub free_segment : Bytes → Option ℕ
free_segment [] = none
free_segment (c ∷ s) =
    let rest = free_segment s in if c == b'0' then some 0 else (do i ← rest; some (suc i))

abbrev pub claim_segment : ℕ → LogSb → LogSb
claim_segment i sb = record sb { bitmap = set sb.bitmap i b'1'; cnt = (sb.cnt + 1) % two64 }

abbrev pub logged : Block → LogBlock → LogBlock
logged blk ilb = record ilb { last = false; rnr = blk.nr; rdata = blk.data_ }

module _ {S : Type 0} (dsk : Disk S) where
  -- After a push: go on with the block released, or try again.
  unfoldable pub pushed_or :
      {A : Type 0} → Block → (S → A) → (S → Option (S × A)) → S × BioError → Option (S × A)
  pushed_or blk result retry (s, err_no_lock) = retry s
  pushed_or blk result retry (s, ok) = let r = brelse dsk blk s in some (r.0, result r.0)

  -- Rounds of the loop; each takes the log block, and tries again if its lock was lost.
  unfoldable pub write_log : ℕ → ℕ → Block → S → Option (S × Unit {0})
  unfolding pushed_or
  write_log zero lbn blk s = none
  write_log (suc fuel) lbn blk s = do
    (s₁, b) ← bget dsk (suc fuel) lbn s
    let nlb = flatten_lb (logged blk (parse_lb b))
    pushed_or nlb (λ s'. tt) (write_log fuel lbn blk) (bpush dsk nlb s₁)

  -- The last result is `false` for the error of too many blocks.
  unfoldable pub write_block : ℕ → TxnHandle → Block → S → Option (S × TxnHandle × Bool)
  unfolding write_log
  write_block fuel t blk s = if leb blk_per_sys t.offset then some (s, t, false) else (do
    (s', u) ← write_log fuel (get_log_segment_start t.blk_seg + t.offset) blk s
    some (s', record t { offset = t.offset + 1 }, true))

  unfoldable pub begin_with :
      LogSb → (S → Option (S × TxnHandle)) → Option ℕ → S → Option (S × TxnHandle)
  unfolding pushed_or
  begin_with sb retry none s = retry (brelse dsk (flatten_sb sb) s).0
  begin_with sb retry (some i) s =
      let nsb = flatten_sb (claim_segment i sb) in
      pushed_or nsb (λ s'. record { blk_seg = i; offset = 0 }) retry (bpush dsk nsb s)

  -- A log that is being committed, or is full, is tried again.
  unfoldable pub begin_transaction : ℕ → S → Option (S × TxnHandle)
  unfolding begin_with
  begin_transaction zero s = none
  begin_transaction (suc fuel) s = do
    (s₁, b) ← bget dsk (suc fuel) sb_nr s
    let sb = parse_sb b
    if ltb 0 sb.commit
        then begin_transaction fuel (brelse dsk (flatten_sb sb) s₁).0
        else begin_with sb (begin_transaction fuel) (free_segment sb.bitmap) s₁

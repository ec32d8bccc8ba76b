-- ===== src/Jrnl/Close.antt =====
-- jrnl/txn.go: `EndTransaction` and `AbortTransaction`.
pub mod Ended
pub mod Whole
pub mod Atomic
pub mod Aborted
use pp.Prelude.{
  ℕ, zero, suc, ◌+◌, ◌-◌, ◌%◌, Bool, true, false, not, ◌||◌, ◌&&◌, Option, none, some, List, [],
  ◌∷◌, set, ltb, length, ◌==◌, if◌then◌else◌, ◌>>=◌,
}
use pp.Text.{Bytes}
use pp.Text.Decimal.{two64}
use pp.Bio.Disk.{Disk, bget, bpush, brelse}
use pp.Jrnl.Blocks.{
  LogBlock, LogSb, sb_nr, get_log_segment_start, parse_sb, flatten_sb, parse_lb, flatten_lb,
}
use pp.Jrnl.Txn.{TxnHandle, pushed_or}
use pp.Jrnl.Replay.{push_sb, commit, released_or}

-- A mark other than '0' stands for a segment with something to commit.
abbrev pub has_valid : Bytes → Bool
has_valid [] = false
has_valid (r ∷ bitmap) = not (r == b'0') || has_valid bitmap

-- The last block of the transaction; the first one of its segment if nothing was written.
abbrev pub last_block : TxnHandle → ℕ
last_block t =
    if t.offset == 0
    then get_log_segment_start t.blk_seg
    else get_log_segment_start t.blk_seg + t.offset - 1

-- `sb.cnt--` on a word of 64 bits.
abbrev pub one_less : LogSb → LogSb
one_less sb = record sb { cnt = (sb.cnt + (two64 - 1)) % two64 }

abbrev pub unclaim : ℕ → LogSb → LogSb
unclaim i sb = record sb { bitmap = set sb.bitmap i b'0' }

module _ {S : Type 0} (dsk : Disk S) where
  unfoldable pub mark_last : ℕ → ℕ → S → Option (S × Unit {0})
  mark_last zero lbn s = none
  mark_last (suc fuel) lbn s = do
    (s₁, b) ← bget dsk (suc fuel) lbn s
    let nlb = flatten_lb (record (parse_lb b) { last = true })
    pushed_or dsk nlb (λ s'. tt) (mark_last fuel lbn) (bpush dsk nlb s₁)

  -- The last transaction that ends commits all of them.
  unfoldable pub close_sb : ℕ → LogSb → S → Option (S × Bool)
  close_sb fuel sb s =
      if sb.cnt == 0 && has_valid sb.bitmap then commit dsk fuel sb s else push_sb dsk sb s

  -- A release reads the number of its block only, so that the superblock's text does not matter in it.
  unfoldable pub leave : ℕ → S → Option (S × Unit {0})
  unfolding close_sb
  leave zero s = none
  leave (suc fuel) s = do
    (s₁, b) ← bget dsk (suc fuel) sb_nr s
    let sb = parse_sb b
    if ltb 0 sb.commit
        then leave fuel (brelse dsk (flatten_sb sb) s₁).0
        else close_sb (suc fuel) (one_less sb) s₁ >>= released_or dsk (one_less sb) (leave fuel)

  unfoldable pub end_transaction : ℕ → TxnHandle → S → Option (S × Unit {0})
  unfolding mark_last leave
  end_transaction fuel t s = do (s₁, u) ← mark_last fuel (last_block t) s; leave fuel s₁

  -- A segment that is not in the bitmap is an index out of range.
  unfoldable pub unmark : ℕ → ℕ → S → Option (S × Unit {0})
  unmark zero seg s = none
  unmark (suc fuel) seg s = do
    (s₁, b) ← bget dsk (suc fuel) sb_nr s
    let sb = parse_sb b
    let retry = unmark fuel seg
    let nsb = flatten_sb (unclaim seg sb)
    if ltb 0 sb.commit
        then retry (brelse dsk (flatten_sb sb) s₁).0
        else if ltb seg (length sb.bitmap)
        then pushed_or dsk nsb (λ s'. tt) retry (bpush dsk nsb s₁)
        else none

  unfoldable pub abort_transaction : ℕ → TxnHandle → S → Option (S × Unit {0})
  unfolding unmark
  abort_transaction fuel t s = do (s₁, u) ← unmark fuel t.blk_seg s; end_transaction fuel t s₁

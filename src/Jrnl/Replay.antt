-- ===== src/Jrnl/Replay.antt =====
-- jrnl/replay.go: the log is written to the disk.
pub mod State
pub mod Round
pub mod Segments
pub mod Twice
pub mod Committed
use pp.Prelude.{
  ℕ, zero, suc, ◌+◌, Bool, true, false, Option, some, none, List, [], ◌∷◌, replicate, ◌==◌,
  if◌then◌else◌, ◌>>=◌,
}
use pp.Text.{Bytes}
use pp.Bio.Disk.{Block, BioError, ok, err_no_lock, Disk, bget, bpush, brenew, brelse}
use pp.Jrnl.Blocks.{
  LogBlock, LogSb, sys_per_log, get_log_segment_start, flatten_sb, parse_lb, flatten_lb,
}

abbrev pub data_block : LogBlock → Block
data_block lb = record { nr = lb.rnr; data_ = lb.rdata }

-- The bitmap with no segment taken.
unfoldable pub zero_bitmap : Bytes
zero_bitmap = replicate sys_per_log b'0'

abbrev pub cleared : LogSb → LogSb
cleared sb = record sb { bitmap = zero_bitmap; commit = 0 }

module _ {S : Type 0} (dsk : Disk S) where
  -- After the push of a data block and the renewal of the superblock's lock: `next` goes on with the
  -- next log block, `again` with the same one. The results are the errors of the renewal and the push.
  unfoldable pub after_push :
      LogBlock
      → (S → Option (S × Bool))
      → (S → Option (S × Bool))
      → BioError
      → BioError
      → S
      → Option (S × Bool)
  after_push lb next again err_no_lock e s = some (s, false)
  after_push lb next again ok err_no_lock s = again s
  after_push lb next again ok ok s =
      let s' = (brelse dsk (data_block lb) s).0 in if lb.last then some (s', true) else next s'

  -- Rounds of the loop from log block `lbn` on. The last result is `false` where the superblock was lost.
  unfoldable pub replay_log_segment : ℕ → LogSb → ℕ → S → Option (S × Bool)
  unfolding after_push
  replay_log_segment zero sb lbn s = none
  replay_log_segment (suc fuel) sb lbn s = do
    (s₁, b) ← bget dsk (suc fuel) lbn s
    let lb = parse_lb b
    let s₂ = (brelse dsk (flatten_lb lb) s₁).0
    let (s₃, e) = bpush dsk (data_block lb) s₂
    let (s₄, lost) = brenew dsk (flatten_sb sb) s₃
    after_push lb (replay_log_segment fuel sb (suc lbn))
        (λ s'. bget dsk (suc fuel) lb.rnr s' >>= λ r. replay_log_segment fuel sb lbn r.0) lost e s₄

  unfoldable pub if_kept : (S → Option (S × Bool)) → S × Bool → Option (S × Bool)
  if_kept next (s, true) = next s
  if_kept next (s, false) = some (s, false)

  -- Every segment that is marked in the bitmap, from segment `i` on.
  unfoldable pub replay_from : ℕ → LogSb → ℕ → Bytes → S → Option (S × Bool)
  unfolding if_kept
  replay_from fuel sb i [] s = some (s, true)
  replay_from fuel sb i (v ∷ bitmap) s =
      let rest = replay_from fuel sb (suc i) bitmap in
      if v == b'1'
      then replay_log_segment fuel sb (get_log_segment_start i) s >>= if_kept rest
      else rest s

  unfoldable pub replay : ℕ → LogSb → S → Option (S × Bool)
  unfolding replay_from
  replay fuel sb s = replay_from fuel sb 0 sb.bitmap s

  abbrev pub is_ok : BioError → Bool
  is_ok ok = true
  is_ok err_no_lock = false

  unfoldable pub push_sb : LogSb → S → Option (S × Bool)
  push_sb sb s = let r = bpush dsk (flatten_sb sb) s in some (r.0, is_ok r.1)

  -- After a push of the superblock: release it, or try again.
  unfoldable pub released_or :
      LogSb → (S → Option (S × Unit {0})) → S × Bool → Option (S × Unit {0})
  released_or sb retry (s, false) = retry s
  released_or sb retry (s, true) = some ((brelse dsk (flatten_sb sb) s).0, tt)

  -- After a crash in a commit: the log is written, and the superblock is empty then.
  unfoldable pub resurrect : ℕ → LogSb → S → Option (S × Bool)
  resurrect fuel sb s = do
    r ← replay fuel sb s
    if_kept (push_sb (record (cleared sb) { cnt = 0 })) r

  -- The push that sets `commit` is the one that decides.
  unfoldable pub commit : ℕ → LogSb → S → Option (S × Bool)
  commit fuel sb s = do
    let sb₁ : LogSb = record sb { commit = 1 }
    r ← push_sb sb₁ s
    if_kept (λ s₁. replay fuel sb₁ s₁ >>= if_kept (push_sb (cleared sb))) r

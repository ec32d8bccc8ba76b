-- ===== src/Jrnl/Setup.antt =====
-- jrnl/sb.go: `InitSb`, which runs when a client starts.
pub mod Atomic
use pp.Prelude.{ℕ, zero, suc, Option, none, ltb, if◌then◌else◌, ◌>>=◌}
use pp.Bio.Disk.{Disk, bget}
use pp.Jrnl.Blocks.{LogSb, sb_nr, parse_sb, flatten_sb}
use pp.Jrnl.Replay.{cleared, push_sb, released_or, resurrect}

abbrev pub fresh_sb : LogSb → LogSb
fresh_sb sb = record (cleared sb) { cnt = 0 }

module _ {S : Type 0} (dsk : Disk S) where
  -- A commit that was cut off is finished; otherwise what was not committed is forgotten. A release reads the
  -- number of its block only, so that it does not matter which text the released superblock has.
  unfoldable pub init_sb : ℕ → S → Option (S × Unit {0})
  init_sb zero s = none
  init_sb (suc fuel) s = do
    (s₁, b) ← bget dsk (suc fuel) sb_nr s
    let sb = parse_sb b
    let pushed =
        if ltb 0 sb.commit then resurrect dsk (suc fuel) sb s₁ else push_sb dsk (fresh_sb sb) s₁
    pushed >>= released_or dsk sb (init_sb fuel)

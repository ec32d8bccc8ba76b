-- ===== src/Jrnl/Replay/Committed.antt =====
-- jrnl/replay.go: `commit` and `resurrect` write all of the log, and empty the superblock.
use pp.Prelude.{
  ℕ, ◌*◌, ◌≤◌, ◌≡◌, refl, ap, ◌∙◌, Bool, true, some, List, ◌==◌, if◌then◌else◌, ◌>>=◌, arith,
  Returns,
}
use pp.Text.{Bytes}
use pp.Bio.Disk.{Block, ok, Disk, bpush}
use pp.Bio.Local.{Sets, StillFree, LocalDisk}
use pp.Jrnl.Blocks.{LogSb, sb_nr, blk_per_sys, flatten_sb}
use pp.Jrnl.Replay.{cleared, if_kept, push_sb, replay, resurrect, commit}
use pp.Jrnl.Replay.State.{
  SameLog, SameButSb, Ready, write_all, Segment, writes, AllLogged, AllLogged-SameLog,
  write_all-SameButSb,
}
use pp.Jrnl.Replay.Segments.{replay-Written}

-- The text of a superblock.
abbrev pub sb_text : LogSb → Bytes
sb_text sb = (flatten_sb sb).data_

module _ {S : Type 0} {dsk : Disk S} (d : LocalDisk dsk) where
  -- A push of the superblock that is held.
  pub bpush-Ready :
      (sb : LogSb) (s : S)
      → Ready d s
      → ((bpush dsk (flatten_sb sb) s).1 ≡ ok)
        × Ready d (bpush dsk (flatten_sb sb) s).0
        × Sets (d.content s) sb_nr (sb_text sb) (d.content (bpush dsk (flatten_sb sb) s).0)
        × StillFree (d.held s) (d.held (bpush dsk (flatten_sb sb) s).0)
  unfolding flatten_sb
  bpush-Ready sb s ready =
      let (e, c, l) = d.push (flatten_sb sb) s (omega arith) ready.sb in
      (
        e,
        record {
          sb = l sb_nr (omega arith) ∙ ready.sb;
          log = λ m i. l m (omega (arith, i)) ∙ ready.log m i;
        },
        c,
        λ m le f. l m le ∙ f,
      )

  pub push_sb-Ready :
      (sb : LogSb) (s : S)
      → Ready d s
      → Returns (push_sb dsk sb s) (λ r.
        (r.1 ≡ true)
        × Ready d r.0
        × Sets (d.content s) sb_nr (sb_text sb) (d.content r.0)
        × StillFree (d.held s) (d.held r.0))
  unfolding push_sb
  push_sb-Ready sb s ready =
      let (e, ready', c, still) = bpush-Ready sb s ready in (_, rw e refl, (refl, ready', c, still))

  -- All writes are there, the superblock has its text, and is still held.
  abbrev pub Cleared : List Block → LogSb → S → S × Bool → Type 0
  Cleared ws sb s r =
      (r.1 ≡ true)
      × Ready d r.0
      × Sets (write_all ws (d.content s)) sb_nr (sb_text sb) (d.content r.0)
      × StillFree (d.held s) (d.held r.0)

  replay_push :
      (fuel : ℕ) (sb sb' : LogSb) (seg : ℕ → Segment) (s : S)
      → 2 * blk_per_sys ≤ fuel
      → Ready d s
      → AllLogged (d.content s) seg 0 sb.bitmap
      → Returns
          (replay dsk fuel sb s >>= if_kept dsk (push_sb dsk sb'))
          (Cleared (writes seg 0 sb.bitmap) sb' s)
  unfolding if_kept
  replay_push fuel sb sb' seg s enough ready h =
      let ((s₁, t), e, (okay, ready₁, w, same, still)) =
        replay-Written d fuel sb seg s enough ready h in
      let g : replay dsk fuel sb s ≡ some (s₁, true) = e ∙ ap (λ x. some (s₁, x)) okay in
      let (r, f, (okay', ready', c, still')) = push_sb-Ready sb' s₁ ready₁ in
      (
        r,
        rw g f,
        (
          okay',
          ready',
          (λ m le. c m le ∙ ap (λ x. if sb_nr == m then sb_text sb' else x) (w m le)),
          λ m le z. still' m le (still m le z),
        ),
      )

  -- A replay after a crash.
  pub resurrect-Cleared :
      (fuel : ℕ) (sb : LogSb) (seg : ℕ → Segment) (s : S)
      → 2 * blk_per_sys ≤ fuel
      → Ready d s
      → AllLogged (d.content s) seg 0 sb.bitmap
      → Returns
          (resurrect dsk fuel sb s)
          (Cleared (writes seg 0 sb.bitmap) (record (cleared sb) { cnt = 0 }) s)
  unfolding resurrect
  resurrect-Cleared fuel sb seg s enough ready h =
      replay_push fuel sb (record (cleared sb) { cnt = 0 }) seg s enough ready h

  -- On a disk of one client, where the superblock is held, no log block is, and the marked segments are in the log,
  -- `commit` does not fail: it writes what the segments hold, in order, to the blocks behind the
  -- journal, and leaves a superblock with no segment taken and no commit under way.
  pub commit-Cleared :
      (fuel : ℕ) (sb : LogSb) (seg : ℕ → Segment) (s : S)
      → 2 * blk_per_sys ≤ fuel
      → Ready d s
      → AllLogged (d.content s) seg 0 sb.bitmap
      → Returns (commit dsk fuel sb s) (Cleared (writes seg 0 sb.bitmap) (cleared sb) s)
  unfolding commit if_kept
  commit-Cleared fuel sb seg s enough ready h =
      let sb₁ : LogSb = record sb { commit = 1 } in
      let ((s₁, t), e, (okay, ready₁, c, still)) = push_sb-Ready sb₁ s ready in
      let g : push_sb dsk sb₁ s ≡ some (s₁, true) = e ∙ ap (λ x. some (s₁, x)) okay in
      let same : SameLog (d.content s) (d.content s₁) =
        λ m low high. c m (omega arith) ∙ ground arith in
      let but : SameButSb (d.content s) (d.content s₁) = λ m le n. c m le ∙ ground arith in
      let ws = writes seg 0 sb.bitmap in
      let (r, f, (okay', ready', c', still')) =
        replay_push fuel sb₁ (cleared sb) seg s₁ enough ready₁
          (AllLogged-SameLog _ _ seg 0 sb.bitmap same h) in
      (
        r,
        rw g f,
        (
          okay',
          ready',
          (λ m le. c' m le ∙ ground (arith, write_all-SameButSb ws _ _ but m le)),
          λ m le z. still' m le (still m le z),
        ),
      )

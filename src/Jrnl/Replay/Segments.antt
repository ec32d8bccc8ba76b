-- ===== src/Jrnl/Replay/Segments.antt =====
-- jrnl/replay.go: a replay writes what the marked segments hold, in order.
use pp.Prelude.{
  ℕ, zero, suc, ◌*◌, ◌≤◌, ◌≡◌, refl, sym, ap, subst, ◌∙◌, Bool, true, false, some, List, [], ◌∷◌,
  ◌++◌, length, ◌==◌, arith, Returns, Bool-cases, inl, inr,
}
use pp.Text.{Bytes}
use pp.Bio.Disk.{Block, Disk}
use pp.Bio.Local.{Same, StillFree, LocalDisk}
use pp.Jrnl.Blocks.{LogSb, blk_per_sys, get_log_segment_start}
use pp.Jrnl.Replay.{replay_log_segment, if_kept, replay_from, replay}
use pp.Jrnl.Replay.State.{
  InLog, InLog-SameLog, SameLog, Same-trans, Sets-data, Ready, write_all, Segment, writes,
  AllLogged, AllLogged-SameLog, write_all-Same, write_all-append,
}
use pp.Jrnl.Replay.Round.{block-Done}

module _ {S : Type 0} {dsk : Disk S} (d : LocalDisk dsk) where
  -- The replay did not fail, and the contents are those after the writes.
  abbrev pub Written : List Block → S → S × Bool → Type 0
  Written bs s r =
      (r.1 ≡ true)
      × Ready d r.0
      × Same (write_all bs (d.content s)) (d.content r.0)
      × SameLog (d.content s) (d.content r.0)
      × StillFree (d.held s) (d.held r.0)

  pub segment-Written :
      (fuel : ℕ) (sb : LogSb) (lbn : ℕ) (b : Block) (bs : List Block) (s : S)
      → 2 * suc (length bs) ≤ fuel
      → Ready d s
      → InLog (d.content s) lbn b bs
      → Returns (replay_log_segment dsk fuel sb lbn s) (Written (b ∷ bs) s)
  segment-Written zero sb lbn b bs s enough ready h = absurd (omega arith)
  segment-Written (suc zero) sb lbn b bs s enough ready h = absurd (omega arith)
  segment-Written (suc (suc rounds)) sb lbn b [] s enough ready (j, n, h) =
      let (fuel, le, k) = block-Done d rounds sb lbn b true s ready j n h in
      ((k.state, true), k.runs, (refl, k.ready, k.wrote, Sets-data _ _ b n k.wrote, k.still))
  segment-Written (suc (suc rounds)) sb lbn b (b' ∷ bs) s enough ready ((j, n, h), t) =
      let (fuel, le, k) = block-Done d rounds sb lbn b false s ready j n h in
      let log = Sets-data (d.content s) (d.content k.state) b n k.wrote in
      let (r, e, (okay, ready', w, log', still)) =
        segment-Written fuel sb (suc lbn) b' bs k.state (omega arith) k.ready
          (InLog-SameLog _ _ (suc lbn) b' bs log t) in
      (
        r,
        k.runs ∙ e,
        (
          okay,
          ready',
          Same-trans (write_all-Same (b' ∷ bs) _ _ k.wrote) w,
          (λ m low high. log' m low high ∙ log m low high),
          λ m le f. still m le (k.still m le f),
        ),
      )

  -- Two rounds for each block that a segment has room for are enough for every segment.
  replay_from-Written :
      (fuel : ℕ) (sb : LogSb) (seg : ℕ → Segment) (i : ℕ) (bitmap : Bytes) (s : S)
      → 2 * blk_per_sys ≤ fuel
      → Ready d s
      → AllLogged (d.content s) seg i bitmap
      → Returns (replay_from dsk fuel sb i bitmap s) (Written (writes seg i bitmap) s)
  unfolding replay_from if_kept
  replay_from-Written fuel sb seg i [] s enough ready h =
      (_, refl, (refl, ready, (λ m le. refl), (λ m low high. refl), λ m le f. f))
  replay_from-Written fuel sb seg i (v ∷ bitmap) s enough ready h = elim (Bool-cases (v == b'1')) [
    | inl one ↦
        let (short, log) = h.0 one in
        let ((s₁, t), e, (okay, ready₁, w, same, still)) =
          segment-Written fuel sb (get_log_segment_start i) (seg i).0 (seg i).1 s
            (omega (arith, short)) ready log in
        let (r, f, (okay', ready', w', same', still')) =
          replay_from-Written fuel sb seg (suc i) bitmap s₁ enough ready₁
            (AllLogged-SameLog _ _ seg (suc i) bitmap same h.1) in
        let g : replay_log_segment dsk fuel sb (get_log_segment_start i) s ≡ some (s₁, true) =
          e ∙ ap (λ x. some (s₁, x)) okay in
        let done : Written (((seg i).0 ∷ (seg i).1) ++ writes seg (suc i) bitmap) s r = (
          okay',
          ready',
          subst (λ f. Same f (d.content r.0))
              (sym (
                write_all-append ((seg i).0 ∷ (seg i).1) (writes seg (suc i) bitmap) (d.content s)))
              (Same-trans (write_all-Same (writes seg (suc i) bitmap) _ _ w) w'),
          (λ m low high. same' m low high ∙ same m low high),
          λ m le f. still' m le (still m le f),
        ) in
        (r, rw (one, g) f, rw one done)
    | inr zero_ ↦
        let (r, e, k) = replay_from-Written fuel sb seg (suc i) bitmap s enough ready h.1 in
        (r, rw zero_ e, rw zero_ k)
  ]

  pub replay-Written :
      (fuel : ℕ) (sb : LogSb) (seg : ℕ → Segment) (s : S)
      → 2 * blk_per_sys ≤ fuel
      → Ready d s
      → AllLogged (d.content s) seg 0 sb.bitmap
      → Returns (replay dsk fuel sb s) (Written (writes seg 0 sb.bitmap) s)
  unfolding replay
  replay-Written fuel sb seg s enough ready h =
      replay_from-Written fuel sb seg 0 sb.bitmap s enough ready h

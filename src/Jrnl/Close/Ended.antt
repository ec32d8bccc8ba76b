-- ===== src/Jrnl/Close/Ended.antt =====
-- jrnl/txn.go: what `EndTransaction` does on a disk of one client.
use pp.Prelude.{
  ℕ, suc, ◌+◌, ◌-◌, ◌*◌, ◌%◌, ◌≤◌, ◌≡◌, refl, ap, ◌∙◌, true, false, ◌&&◌, some, ltb, ◌==◌, arith,
  Returns,
}
use pp.Text.Decimal.{two64}
use pp.Bio.Disk.{Block, Disk}
use pp.Bio.Local.{Same, Sets, StillFree, LocalDisk}
use pp.Jrnl.Blocks.{LogBlock, LogSb, sb_nr, blk_per_sys, parse_sb, parse_lb}
use pp.Jrnl.Replay.{cleared, push_sb, commit, released_or}
use pp.Jrnl.Replay.State.{
  InJournal, Holds, write_all, write_all-Same, Segment, writes, AllLogged, AllLogged-SameLog,
}
use pp.Jrnl.Replay.Committed.{sb_text, push_sb-Ready, commit-Cleared}
use pp.Jrnl.Setup.Atomic.{Idle, open_sb, StillFree-taken, release-Idle}
use pp.Jrnl.Txn.Logged.{parse_lb-lnr}
use pp.Jrnl.Txn.Written.{Loggable, SameBut, flatten-Holds, rewrite-Rewritten}
use pp.Jrnl.Close.{has_valid, one_less, mark_last, close_sb, leave}

module _ {S : Type 0} {dsk : Disk S} (d : LocalDisk dsk) where
  -- A log block is marked as the last one.
  pub mark_last-Marked :
      (fuel lbn : ℕ) (b : Block) (s : S)
      → InJournal lbn
      → Loggable b
      → Idle d s
      → Holds (d.content s) lbn b false
      → Returns (mark_last dsk (suc fuel) lbn s) (λ r.
        Idle d r.0
        × Holds (d.content r.0) lbn b true
        × SameBut lbn (d.content s) (d.content r.0)
        × Same (d.held s) (d.held r.0))
  unfolding mark_last
  mark_last-Marked fuel lbn b s j h idle holds =
      let lb : LogBlock = record { lnr = lbn; rnr = b.nr; rdata = b.data_; last = false } in
      let (r, e, (w, q)) =
        rewrite-Rewritten d fuel lbn (λ l. record l { last = true }) (λ s'. tt)
          (mark_last dsk fuel lbn) s lb j idle holds refl in
      (
        r,
        e,
        (
          w.idle,
          flatten-Holds (d.content r.0) lbn b true (record lb { last = true }) h refl w.now,
          w.others,
          w.locks,
        ),
      )

  -- Whatever the log block holds, marking it changes no other block.
  pub mark_last-SameBut :
      (fuel lbn : ℕ) (s : S)
      → InJournal lbn
      → Idle d s
      → Returns
          (mark_last dsk (suc fuel) lbn s)
          (λ r. Idle d r.0 × SameBut lbn (d.content s) (d.content r.0))
  unfolding mark_last
  mark_last-SameBut fuel lbn s j idle =
      let old : Block = record { nr = lbn; data_ = d.content s lbn } in
      let (r, e, (w, q)) =
        rewrite-Rewritten d fuel lbn (λ l. record l { last = true }) (λ s'. tt)
          (mark_last dsk fuel lbn) s (parse_lb old) j idle refl (parse_lb-lnr old) in
      (r, e, (w.idle, w.others))

  -- The last transaction that ends commits what every marked segment holds.
  pub leave-commits :
      (fuel : ℕ) (sb : LogSb) (seg : ℕ → Segment) (s : S)
      → 2 * blk_per_sys ≤ suc fuel
      → Idle d s
      → parse_sb (record { nr = sb_nr; data_ = d.content s sb_nr }) ≡ sb
      → sb.commit ≡ 0
      → sb.cnt ≡ 1
      → has_valid sb.bitmap ≡ true
      → AllLogged (d.content s) seg 0 sb.bitmap
      → Returns (leave dsk (suc fuel) s) (λ r.
        Idle d r.0
        × Sets
            (write_all (writes seg 0 sb.bitmap) (d.content s))
            sb_nr
            (sb_text (cleared (one_less sb)))
            (d.content r.0)
        × StillFree (d.held s) (d.held r.0))
  unfolding leave close_sb released_or
  leave-commits fuel sb seg s enough idle p none_ one valid logged =
      let o = open_sb d fuel sb s idle p in
      let b : ltb 0 sb.commit ≡ false = ground arith in
      let z : (sb.cnt + (two64 - 1)) % two64 == 0 ≡ true = rw one refl in
      let ((s₁, t), e, (okay, ready, c, still)) =
        commit-Cleared d (suc fuel) (one_less sb) seg o.state enough o.ready
          (AllLogged-SameLog _ _ seg 0 sb.bitmap (λ m low high. o.same m (omega arith)) logged) in
      let g : commit dsk (suc fuel) (one_less sb) o.state ≡ some (s₁, true) =
        e ∙ ap (λ x. some (s₁, x)) okay in
      let (c', i, still') = release-Idle d (one_less sb) s₁ ready in
      (
        _,
        rw (o.got, o.parsed, b, z, valid, g) refl,
        (
          i,
          (λ m le.
              c' m le
              ∙ c m le
              ∙ ground (arith, write_all-Same (writes seg 0 sb.bitmap) _ _ o.same m le)),
          StillFree-taken sb_nr (d.held s) (d.held o.state) _ o.taken
              (λ m le z. still' m le (still m le z)) i.sb,
        ),
      )

  -- A transaction that ends while others are open, or with no segment taken, is counted, and commits nothing.
  pub leave-waits :
      (fuel : ℕ) (sb : LogSb) (s : S)
      → Idle d s
      → parse_sb (record { nr = sb_nr; data_ = d.content s sb_nr }) ≡ sb
      → sb.commit ≡ 0
      → ((one_less sb).cnt == 0 && has_valid sb.bitmap) ≡ false
      → Returns
          (leave dsk (suc fuel) s)
          (λ r. Idle d r.0 × Sets (d.content s) sb_nr (sb_text (one_less sb)) (d.content r.0))
  unfolding leave close_sb released_or
  leave-waits fuel sb s idle p none_ more =
      let o = open_sb d fuel sb s idle p in
      let b : ltb 0 sb.commit ≡ false = ground arith in
      let ((s₁, t), e, (okay, ready, c, _)) = push_sb-Ready d (one_less sb) o.state o.ready in
      let g : push_sb dsk (one_less sb) o.state ≡ some (s₁, true) =
        e ∙ ap (λ x. some (s₁, x)) okay in
      let (c', i, _) = release-Idle d (one_less sb) s₁ ready in
      (
        _,
        rw (o.got, o.parsed, b, more, g) refl,
        (i, λ m le. c' m le ∙ c m le ∙ ground (arith, o.same m le)),
      )

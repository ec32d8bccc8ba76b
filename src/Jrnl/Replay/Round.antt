-- ===== src/Jrnl/Replay/Round.antt =====
-- jrnl/replay.go: one log block is written to the disk.
use pp.Prelude.{
  ℕ, suc, ◌≤◌, ◌≡◌, refl, ap, subst, ◌∙◌, Bool, true, false, some, ◌==◌, if◌then◌else◌, ◌>>=◌,
  arith, Bool-cases, inl, inr,
}
use pp.Text.Decimal.{max_u64}
use pp.Bio.Disk.{Block, Disk, bget, bpush, brenew, brelse}
use pp.Bio.Local.{Same, Sets, StillFree, LocalDisk}
use pp.Jrnl.Blocks.{LogBlock, LogSb, sb_nr, flatten_sb, parse_lb, flatten_lb}
use pp.Jrnl.Replay.{after_push, replay_log_segment}
use pp.Jrnl.Replay.State.{IsData, InJournal, Holds, Holds-SameLog, Same-trans, Ready}

module _ {S : Type 0} {dsk : Disk S} (d : LocalDisk dsk) where
  -- The state in which the data block is pushed.
  pub record Got (fuel : ℕ) (sb : LogSb) (lbn : ℕ) (b : Block) (last : Bool) (s : S) : Type 0 where
    pub state : S
    pub contents : Same (d.content s) (d.content state)
    pub locks : Sets (d.held s) lbn false (d.held state)
    pub runs : replay_log_segment dsk (suc fuel) sb lbn s ≡ (
        let lb : LogBlock = record { lnr = lbn; rnr = b.nr; rdata = b.data_; last = last } in
        let p = bpush dsk b state in
        let q = brenew dsk (flatten_sb sb) p.0 in
        after_push dsk lb
          (replay_log_segment dsk fuel sb (suc lbn))
          (λ s'. bget dsk (suc fuel) b.nr s' >>= λ r. replay_log_segment dsk fuel sb lbn r.0)
          q.1
          p.1
          q.0)

  get-Got :
      (fuel : ℕ) (sb : LogSb) (lbn : ℕ) (b : Block) (last : Bool) (s : S)
      → InJournal lbn
      → d.held s lbn ≡ false
      → Holds (d.content s) lbn b last
      → Got fuel sb lbn b last s
  unfolding replay_log_segment flatten_lb
  get-Got fuel sb lbn b last s j free holds =
      let (r, e, (eb, c, h)) = d.get fuel lbn s (omega (arith, j)) free in
      let lb : LogBlock = record { lnr = lbn; rnr = b.nr; rdata = b.data_; last = last } in
      let p : parse_lb r.1 ≡ lb = ap parse_lb eb ∙ holds in
      let (c', h') = d.relse (flatten_lb lb) r.0 (omega (arith, j)) in
      record {
        state = (brelse dsk (flatten_lb lb) r.0).0;
        contents = Same-trans c c';
        locks = λ m le. h' m le ∙ ground (arith, h m le);
        runs = rw (e, p) refl;
      }

  -- The rounds for one log block are done: its block is written, and the loop goes on or ends.
  pub record Done (rounds fuel : ℕ) (sb : LogSb) (lbn : ℕ) (b : Block) (last : Bool) (s : S)
      : Type 0 where
    pub state : S
    pub ready : Ready d state
    pub wrote : Sets (d.content s) b.nr b.data_ (d.content state)
    pub still : StillFree (d.held s) (d.held state)
    pub freed : d.held state b.nr ≡ false
    pub runs :
        replay_log_segment dsk rounds sb lbn s
        ≡ (if last then some (state, true) else replay_log_segment dsk fuel sb (suc lbn) state)

  -- A block that is held is written in one round.
  held-Done :
      (fuel : ℕ) (sb : LogSb) (lbn : ℕ) (b : Block) (last : Bool) (s : S)
      → Ready d s
      → InJournal lbn
      → IsData b.nr
      → Holds (d.content s) lbn b last
      → d.held s b.nr ≡ true
      → Done (suc fuel) fuel sb lbn b last s
  unfolding flatten_sb after_push
  held-Done fuel sb lbn b last s ready j n holds h =
      let g = get-Got fuel sb lbn b last s j (ready.log lbn j) holds in
      let lock : d.held g.state b.nr ≡ true = g.locks b.nr n.1 ∙ ground (arith, h) in
      let (e, c, l) = d.push b g.state n.1 lock in
      let p = (bpush dsk b g.state).0 in
      let sb_held : d.held g.state sb_nr ≡ true =
        g.locks sb_nr (omega arith) ∙ ground (arith, ready.sb) in
      let (e', c', l') =
        d.renew (flatten_sb sb) p (omega arith) (l sb_nr (omega arith) ∙ sb_held) in
      let q = (brenew dsk (flatten_sb sb) p).0 in
      let (c'', l'') = d.relse b q n.1 in
      let locks : (m : ℕ)
          → m ≤ max_u64
          → d.held (brelse dsk b q).0 m
            ≡ (if b.nr == m then false else if lbn == m then false else d.held s m) =
        λ m le.
          l'' m le ∙ ap (λ x. if b.nr == m then false else x) (l' m le ∙ l m le ∙ g.locks m le) in
      record {
        state = (brelse dsk b q).0;
        ready = record {
          sb = locks sb_nr (omega arith) ∙ ground (arith, ready.sb);
          log = λ m i. locks m (omega (arith, i)) ∙ ground (arith, ready.log m i);
        };
        wrote = λ m le.
            c'' m le
            ∙ c' m le
            ∙ c m le
            ∙ ap (λ x. if b.nr == m then b.data_ else x) (g.contents m le);
        still = λ m le f. locks m le ∙ ground (arith, f);
        freed = locks b.nr n.1 ∙ ground arith;
        runs = g.runs ∙ rw (e, e') refl;
      }

  -- Where the block is not held, its lock is taken, and the next round writes it.
  free-Done :
      (fuel : ℕ) (sb : LogSb) (lbn : ℕ) (b : Block) (last : Bool) (s : S)
      → Ready d s
      → InJournal lbn
      → IsData b.nr
      → Holds (d.content s) lbn b last
      → d.held s b.nr ≡ false
      → Done (suc (suc fuel)) fuel sb lbn b last s
  unfolding flatten_sb after_push
  free-Done fuel sb lbn b last s ready j n holds h =
      let g = get-Got (suc fuel) sb lbn b last s j (ready.log lbn j) holds in
      let lock : d.held g.state b.nr ≡ false = g.locks b.nr n.1 ∙ ground (arith, h) in
      let (e, c, l) = d.refuse b g.state n.1 lock in
      let p = (bpush dsk b g.state).0 in
      let sb_held : d.held g.state sb_nr ≡ true =
        g.locks sb_nr (omega arith) ∙ ground (arith, ready.sb) in
      let (e', c', l') =
        d.renew (flatten_sb sb) p (omega arith) (l sb_nr (omega arith) ∙ sb_held) in
      let q = (brenew dsk (flatten_sb sb) p).0 in
      let (r, f, (eb, c'', l'')) = d.get (suc fuel) b.nr q n.1 (l' b.nr n.1 ∙ l b.nr n.1 ∙ lock) in
      let locks : (m : ℕ)
          → m ≤ max_u64
          → d.held r.0 m ≡ (if b.nr == m then true else if lbn == m then false else d.held s m) =
        λ m le.
          l'' m le ∙ ap (λ x. if b.nr == m then true else x) (l' m le ∙ l m le ∙ g.locks m le) in
      let same : Same (d.content s) (d.content r.0) =
        Same-trans (Same-trans (Same-trans g.contents c) c') c'' in
      let ready' : Ready d r.0 = record {
        sb = locks sb_nr (omega arith) ∙ ground (arith, ready.sb);
        log = λ m i. locks m (omega (arith, i)) ∙ ground (arith, ready.log m i);
      } in
      let k =
        held-Done fuel sb lbn b last r.0 ready' j n
          (Holds-SameLog (d.content s) (d.content r.0) lbn b last
            (λ m low high. same m (omega arith)) j holds)
          (locks b.nr n.1 ∙ ground arith) in
      record {
        state = k.state;
        ready = k.ready;
        wrote = λ m le. k.wrote m le ∙ ap (λ x. if b.nr == m then b.data_ else x) (same m le);
        still = λ m le z. elim (Bool-cases (b.nr == m)) [
          | inl t ↦
              let same_nr : b.nr ≡ m = ground (arith, t) in
              subst (λ x. d.held k.state x ≡ false) same_nr k.freed
          | inr t ↦ k.still m le (locks m le ∙ ground (arith, t, z))
        ];
        freed = k.freed;
        runs = g.runs ∙ rw (e, e', f) k.runs;
      }

  -- Two rounds are enough for a block.
  pub block-Done :
      (rounds : ℕ) (sb : LogSb) (lbn : ℕ) (b : Block) (last : Bool) (s : S)
      → Ready d s
      → InJournal lbn
      → IsData b.nr
      → Holds (d.content s) lbn b last
      → (fuel : ℕ) × (rounds ≤ fuel) × Done (suc (suc rounds)) fuel sb lbn b last s
  block-Done rounds sb lbn b last s ready j n holds = elim (Bool-cases (d.held s b.nr)) [
    | inl h ↦ (suc rounds, omega arith, held-Done (suc rounds) sb lbn b last s ready j n holds h)
    | inr h ↦ (rounds, omega arith, free-Done rounds sb lbn b last s ready j n holds h)
  ]

-- ===== src/Jrnl/Txn/Written.antt =====
-- jrnl/txn.go: what `WriteBlock` does on a disk of one client.
use pp.Prelude.{
  ℕ, suc, ◌+◌, ◌≤◌, ◌<◌, ◌≡◌, ◌≢◌, refl, ap, ◌∙◌, Bool, true, false, Option, leb, ◌==◌,
  if◌then◌else◌, ◌>>=◌, arith, Returns, sym, Bool-cases, inl, inr,
}
use pp.Text.{Bytes, Lacks}
use pp.Text.Decimal.{max_u64}
use pp.Bio.Disk.{Block, Disk, bget, bpush, brelse}
use pp.Bio.Local.{Same, LocalDisk}
use pp.Jrnl.Blocks.{
  LogBlock, slash, sb_nr, blk_per_sys, end_jrnl, get_log_segment_start, parse_lb, flatten_lb,
}
use pp.Jrnl.RoundTrip.{parse_lb-flatten_lb}
use pp.Jrnl.Txn.{TxnHandle, logged, pushed_or, write_log, write_block}
use pp.Jrnl.Txn.Logged.{parse_lb-lnr}
use pp.Jrnl.Replay.State.{IsData, InJournal, Holds}
use pp.Jrnl.Setup.Atomic.{Idle}

-- A block that the journal can log: it lies behind the journal, and its data has no slash.
abbrev pub Loggable : Block → Type 0
Loggable b = IsData b.nr × Lacks slash b.data_

-- All contents but those of block `n` are kept.
abbrev pub SameBut : ℕ → (ℕ → Bytes) → (ℕ → Bytes) → Type 0
SameBut n f g = (m : ℕ) → m ≤ max_u64 → m ≢ n → g m ≡ f m

pub flatten-Holds :
    (c : ℕ → Bytes) (n : ℕ) (b : Block) (last : Bool) (lb : LogBlock)
    → Loggable b
    → lb ≡ record { lnr = n; rnr = b.nr; rdata = b.data_; last = last }
    → c n ≡ (flatten_lb lb).data_
    → Holds c n b last
unfolding flatten_lb
flatten-Holds c n b last lb h e q =
    let lb' : LogBlock = record { lnr = n; rnr = b.nr; rdata = b.data_; last = last } in
    ap (λ t. parse_lb (record { nr = n; data_ = t })) (q ∙ ap (λ l. (flatten_lb l).data_) e)
    ∙ parse_lb-flatten_lb lb' h.1 h.0.1

-- A lock that was free, taken and released.
pub lock_back :
    (held : ℕ → Bool) (n k m : ℕ)
    → n ≡ k
    → held k ≡ false
    → (if n == m then false else if k == m then true else held m) ≡ held m
lock_back held n k m e free = elim (Bool-cases (k == m)) [
  | inl t ↦
      let same : k ≡ m = ground arith in
      let t' : (n == m) ≡ true = ground (arith, e) in rw t' (sym free ∙ ap held same)
  | inr t ↦ let t' : (n == m) ≡ false = ground (arith, e) in rw (t', t) refl
]

module _ {S : Type 0} {dsk : Disk S} (d : LocalDisk dsk) where
  -- A block of the journal was taken, rewritten and released.
  pub record Rewritten (lbn : ℕ) (text : Bytes) (s s' : S) : Type 0 where
    pub idle : Idle d s'
    pub now : d.content s' lbn ≡ text
    pub others : SameBut lbn (d.content s) (d.content s')
    pub locks : Same (d.held s) (d.held s')

  -- Taking block `lbn`, pushing what is made of it and releasing it.
  pub rewrite-Rewritten :
      {A : Type 0} (fuel lbn : ℕ) (change : LogBlock → LogBlock) (result : S → A)
      (retry : S → Option (S × A)) (s : S) (lb : LogBlock)
      → InJournal lbn
      → Idle d s
      → parse_lb (record { nr = lbn; data_ = d.content s lbn }) ≡ lb
      → (change lb).lnr ≡ lbn
      → Returns
          (bget dsk (suc fuel) lbn s >>= λ r.
            let nlb = flatten_lb (change (parse_lb r.1)) in
            pushed_or dsk nlb result retry (bpush dsk nlb r.0))
          (λ r. Rewritten lbn (flatten_lb (change lb)).data_ s r.0 × (r.1 ≡ result r.0))
  unfolding pushed_or flatten_lb
  rewrite-Rewritten fuel lbn change result retry s lb j idle p n =
      let le : lbn ≤ max_u64 = omega (arith, j) in
      let (r, e, (eb, c, h)) = d.get fuel lbn s le (idle.log lbn j) in
      let q : parse_lb r.1 ≡ lb = ap parse_lb eb ∙ p in
      let nlb = flatten_lb (change lb) in
      let lock : d.held r.0 (change lb).lnr ≡ true = ap (d.held r.0) n ∙ h lbn le ∙ ground arith in
      let (e', c', h') = d.push nlb r.0 (omega (arith, n, j)) lock in
      let s' = (bpush dsk nlb r.0).0 in
      let (c'', h'') = d.relse nlb s' (omega (arith, n, j)) in
      let locks : (m : ℕ)
          → m ≤ max_u64
          → d.held (brelse dsk nlb s').0 m
            ≡ (if (change lb).lnr == m then false else if lbn == m then true else d.held s m) =
        λ m le. h'' m le ∙ ap (λ x. if (change lb).lnr == m then false else x) (h' m le ∙ h m le) in
      let now : d.content (brelse dsk nlb s').0 lbn ≡ nlb.data_ =
        c'' lbn (omega (arith, j)) ∙ c' lbn (omega (arith, j)) ∙ ground (arith, n) in
      let others : SameBut lbn (d.content s) (d.content (brelse dsk nlb s').0) =
        λ m le ne. c'' m le ∙ c' m le ∙ ground (arith, n, c m le) in
      (
        _,
        rw (e, q, e') refl,
        (
          record {
            idle = record {
              sb = locks sb_nr (omega arith) ∙ ground (arith, n, idle.sb);
              log = λ m i. locks m (omega (arith, i)) ∙ ground (arith, n, idle.log m i);
            };
            now = now;
            others = others;
            locks =
                λ m le. locks m le ∙ lock_back (d.held s) (change lb).lnr lbn m n (idle.log lbn j);
          },
          refl,
        ),
      )

  -- A block was logged, and nothing else changed.
  abbrev pub LoggedAt : ℕ → Block → S → S → Type 0
  LoggedAt lbn b s s' =
      Idle d s' × Holds (d.content s') lbn b false × SameBut lbn (d.content s) (d.content s')

  abbrev pub WroteBlock : TxnHandle → Block → S → S × TxnHandle × Bool → Type 0
  WroteBlock t b s (s', t', done) =
      (t' ≡ record t { offset = t.offset + 1 })
      × (done ≡ true)
      × LoggedAt (get_log_segment_start t.blk_seg + t.offset) b s s'
      × Same (d.held s) (d.held s')

  pub write_block-WroteBlock :
      (fuel : ℕ) (t : TxnHandle) (b : Block) (s : S)
      → t.offset < blk_per_sys
      → get_log_segment_start t.blk_seg + t.offset < end_jrnl
      → Loggable b
      → Idle d s
      → Returns (write_block dsk (suc fuel) t b s) (WroteBlock t b s)
  unfolding write_block write_log
  write_block-WroteBlock fuel t b s room low h idle =
      let n = get_log_segment_start t.blk_seg + t.offset in
      let old = parse_lb (record { nr = n; data_ = d.content s n }) in
      let l : old.lnr ≡ n = parse_lb-lnr (record { nr = n; data_ = d.content s n }) in
      let is : InJournal n = omega (arith, low) in
      let u : leb blk_per_sys t.offset ≡ false = ground arith in
      let (r, e, (w, q)) =
        rewrite-Rewritten fuel n (logged b) (λ s'. tt) (write_log dsk fuel n b) s old is idle refl
          l in
      (
        _,
        rw (u, e) refl,
        (
          refl,
          refl,
          (
            w.idle,
            flatten-Holds (d.content r.0) n b false (logged b old) h
                (ap (λ m. record { lnr = m; rnr = b.nr; rdata = b.data_; last = false }) l) w.now,
            w.others,
          ),
          w.locks,
        ),
      )

-- ===== src/Jrnl/Close/Atomic.antt =====
-- jrnl/txn.go and jrnl/replay.go: a transaction's writes are all on the disk when it has ended.
use pp.Prelude.{
  ℕ, zero, suc, ◌+◌, ◌*◌, ◌≤◌, ◌≡◌, refl, ap, ◌∙◌, some, List, [], ◌∷◌, ◌++◌, length, replicate,
  arith, Returns, append-nil,
}
use pp.Text.{Bytes}
use pp.Bio.Disk.{Block, Disk}
use pp.Bio.Local.{Same, StillFree, LocalDisk}
use pp.Jrnl.Blocks.{LogSb, sb_nr, blk_per_sys, end_jrnl, parse_sb, flatten_sb}
use pp.Jrnl.RoundTrip.{parse_sb-flatten_sb}
use pp.Jrnl.Txn.{begin_transaction}
use pp.Jrnl.Txn.Begun.{begin_transaction-Begun}
use pp.Jrnl.Txn.Written.{SameBut}
use pp.Jrnl.Replay.{cleared, zero_bitmap}
use pp.Jrnl.Replay.State.{IsData, InLog, write_all, write_all-SameData, Segment, writes, AllLogged}
use pp.Jrnl.Replay.Committed.{sb_text}
use pp.Jrnl.Setup.Atomic.{Idle, zeros-Lacks}
use pp.Jrnl.Close.{one_less, last_block, mark_last, end_transaction}
use pp.Jrnl.Close.Ended.{mark_last-Marked, leave-commits}
use pp.Jrnl.Close.Whole.{
  AllLoggable, Unmarked, final, final-Loggable, final-Holds, marked-InLog, write_blocks,
  write_blocks-Wrote, run_transaction,
}

-- A superblock with no segment taken.
abbrev pub no_segments : ℕ → LogSb
no_segments n = record { bitmap = replicate (suc n) b'0'; cnt = 0; commit = 0 }

abbrev pub first_taken : ℕ → LogSb
first_taken n = record { bitmap = b'1' ∷ replicate n b'0'; cnt = 1; commit = 0 }

writes-none : (seg : ℕ → Segment) (i n : ℕ) → writes seg i (replicate n b'0') ≡ []
writes-none seg i zero = refl
writes-none seg i (suc n) = writes-none seg (suc i) n

AllLogged-none :
    (c : ℕ → Bytes) (seg : ℕ → Segment) (i n : ℕ) → AllLogged c seg i (replicate n b'0')
AllLogged-none c seg i zero = tt
AllLogged-none c seg i (suc n) = (λ h. absurd cc, AllLogged-none c seg (suc i) n)

pub first_taken-parsed :
    (n : ℕ) → parse_sb (record { nr = sb_nr; data_ = sb_text (first_taken n) }) ≡ first_taken n
unfolding flatten_sb
first_taken-parsed n =
    parse_sb-flatten_sb (first_taken n) (λ e. omega (arith, e), zeros-Lacks n) (omega arith)
      (omega arith)

cleared-parsed :
    (n : ℕ)
    → parse_sb (record { nr = sb_nr; data_ = sb_text (cleared (one_less (first_taken n))) })
      ≡ no_segments 999
unfolding flatten_sb zero_bitmap
cleared-parsed n =
    parse_sb-flatten_sb (no_segments 999) (zeros-Lacks 1000) (omega arith) (omega arith)

last_block-first : (k : ℕ) → last_block (record { blk_seg = 0; offset = suc k }) ≡ 3 + k
last_block-first k = ground arith

module _ {S : Type 0} {dsk : Disk S} (d : LocalDisk dsk) where
  -- The log block that `EndTransaction` marks.
  end_marked :
      (fuel : ℕ) (lbn : ℕ) (b : Block) (bs : List Block) (s : S)
      → lbn + suc (length bs) ≤ end_jrnl
      → AllLoggable (b ∷ bs)
      → Idle d s
      → Unmarked (d.content s) lbn (b ∷ bs)
      → Returns (mark_last dsk (suc fuel) (lbn + length bs) s) (λ r.
        Idle d r.0
        × InLog (d.content r.0) lbn b bs
        × SameBut (lbn + length bs) (d.content s) (d.content r.0)
        × Same (d.held s) (d.held r.0))
  end_marked fuel lbn b bs s low h idle un =
      let (j, holds) = final-Holds (d.content s) lbn b bs un in
      let (r, e, (idle', holds', others, locks)) =
        mark_last-Marked d fuel (lbn + length bs) (final b bs) s j (final-Loggable b bs h) idle
          holds in
      (
        r,
        e,
        (
          idle',
          marked-InLog _ _ lbn b bs un
              (λ m lo hi. others m (omega arith) (λ z. absurd (omega (arith, z, hi)))) holds',
          others,
          locks,
        ),
      )

  -- The blocks behind the journal are as after the writes, and the superblock is empty again.
  abbrev pub Atomic : List Block → S → S × Unit {0} → Type 0
  Atomic bs s r =
      Idle d r.0
      × ((m : ℕ) → IsData m → d.content r.0 m ≡ write_all bs (d.content s) m)
      × (parse_sb (record { nr = sb_nr; data_ = d.content r.0 sb_nr }) ≡ no_segments 999)

  pub closed-Atomic :
      (fuel n : ℕ) (b : Block) (bs : List Block) (s₀ s : S)
      → 2 * blk_per_sys ≤ suc fuel
      → suc (length bs) ≤ blk_per_sys
      → AllLoggable (b ∷ bs)
      → Idle d s
      → Unmarked (d.content s) 3 (b ∷ bs)
      → d.content s sb_nr ≡ sb_text (first_taken n)
      → ((m : ℕ) → IsData m → d.content s m ≡ d.content s₀ m)
      → Returns
          (end_transaction dsk (suc fuel) (record { blk_seg = 0; offset = suc (length bs) }) s)
          (λ r. Atomic (b ∷ bs) s₀ r × StillFree (d.held s) (d.held r.0))
  unfolding end_transaction
  closed-Atomic fuel n b bs s₀ s enough short h idle un text data_same =
      let seg : ℕ → Segment = λ i. (b, bs) in
      let ((s₁, u), e, (idle₁, log, others, locks)) =
        end_marked fuel 3 b bs s (omega arith) h idle un in
      let text₁ : d.content s₁ sb_nr ≡ sb_text (first_taken n) =
        others sb_nr (omega arith) (λ z. absurd (omega (arith, z))) ∙ text in
      let p : parse_sb (record { nr = sb_nr; data_ = d.content s₁ sb_nr }) ≡ first_taken n =
        ap (λ t. parse_sb (record { nr = sb_nr; data_ = t })) text₁ ∙ first_taken-parsed n in
      let ((s₂, u'), f, (idle₂, c, still)) =
        leave-commits d fuel (first_taken n) seg s₁ enough idle₁ p refl refl refl
          ((λ _. (short, log)), AllLogged-none (d.content s₁) seg 1 n) in
      let all : writes seg 0 (first_taken n).bitmap ≡ b ∷ bs =
        ap (λ l. (b ∷ bs) ++ l) (writes-none seg 1 n) ∙ append-nil (b ∷ bs) in
      let data_ : (m : ℕ) → IsData m → d.content s₂ m ≡ write_all (b ∷ bs) (d.content s₀) m = λ m i.
        c m i.1
        ∙ ground (arith, ap (λ ws. write_all ws (d.content s₁) m) all)
        ∙ write_all-SameData (b ∷ bs) (d.content s₀) (d.content s₁)
            (λ k j. others k j.1 (λ z. absurd (omega (arith, z, j.0, short))) ∙ data_same k j) m
            i in
      let sb : parse_sb (record { nr = sb_nr; data_ = d.content s₂ sb_nr }) ≡ no_segments 999 =
        ap (λ t. parse_sb (record { nr = sb_nr; data_ = t })) (c sb_nr (omega arith))
        ∙ cleared-parsed n in
      let at = last_block-first (length bs) in
      (_, rw (at, e) f, ((idle₂, data_, sb), λ m le z. still m le (locks m le ∙ z)))

  -- The transaction has begun and has written its blocks.
  pub record InTxn (fuel n : ℕ) (bs : List Block) (s : S) : Type 0 where
    pub first : S
    pub state : S
    pub begun :
        begin_transaction dsk (suc fuel) s ≡ some (first, record { blk_seg = 0; offset = 0 })
    pub wrote :
        write_blocks dsk (suc fuel) (record { blk_seg = 0; offset = 0 }) bs first
        ≡ some (state, record { blk_seg = 0; offset = length bs })
    pub idle : Idle d state
    pub log : Unmarked (d.content state) 3 bs
    pub text : d.content state sb_nr ≡ sb_text (first_taken n)
    pub same : (m : ℕ) → IsData m → d.content state m ≡ d.content s m

  pub begin-InTxn :
      (fuel n : ℕ) (bs : List Block) (s : S)
      → length bs ≤ blk_per_sys
      → AllLoggable bs
      → Idle d s
      → parse_sb (record { nr = sb_nr; data_ = d.content s sb_nr }) ≡ no_segments n
      → InTxn fuel n bs s
  begin-InTxn fuel n bs s short h idle p =
      let low : 3 + length bs ≤ end_jrnl = omega (arith, short) in
      let ((s₁, t), e, (q, idle₁, c, _)) =
        begin_transaction-Begun d fuel (no_segments n) 0 s idle p refl
          (record { free = refl; before = λ j c lt q. absurd (omega (arith, lt)) }) in
      let (r, f, w) =
        write_blocks-Wrote d fuel (record { blk_seg = 0; offset = 0 }) bs 3 s₁
          (omega (arith, short)) (omega arith) low h idle₁ in
      let count : 0 + length bs ≡ length bs = omega arith in
      record {
        first = s₁;
        state = r.0;
        begun = e ∙ ap (λ t. some (s₁, t)) q;
        wrote =
            f
            ∙ ap (λ t. some (r.0, t))
                (w.handle ∙ ap (λ k. record { blk_seg = 0; offset = k }) count);
        idle = w.idle;
        log = w.log;
        text = (w.others sb_nr (omega arith)).0 (omega arith) ∙ c sb_nr (omega arith);
        same = λ m i. (w.others m i.1).1 (omega (arith, i, low)) ∙ c m i.1 ∙ ground (arith, i.0);
      }

  -- On a disk of one client with no lock of the journal held and a superblock with no segment taken, a transaction that
  -- writes one to a hundred blocks behind the journal, without a slash in their data, does not block or fail; when it has
  -- ended, the blocks behind the journal are as after these writes in order, no lock of the journal is held, and the
  -- superblock is empty again.
  pub run_transaction-Atomic :
      (fuel n : ℕ) (b : Block) (bs : List Block) (s : S)
      → 2 * blk_per_sys ≤ suc fuel
      → suc (length bs) ≤ blk_per_sys
      → AllLoggable (b ∷ bs)
      → Idle d s
      → parse_sb (record { nr = sb_nr; data_ = d.content s sb_nr }) ≡ no_segments n
      → Returns (run_transaction dsk (suc fuel) (b ∷ bs) s) (Atomic (b ∷ bs) s)
  unfolding run_transaction
  run_transaction-Atomic fuel n b bs s enough short h idle p =
      let t = begin-InTxn fuel n (b ∷ bs) s short h idle p in
      let (r, e, (a, _)) =
        closed-Atomic fuel n b bs s t.state enough short h t.idle t.log t.text t.same in
      (r, rw (t.begun, t.wrote) e, a)

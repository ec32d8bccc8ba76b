-- ===== src/Jrnl/RoundTrip.antt =====
-- jrnl/parse.go: what the journal writes as text, it reads back.
use pp.Prelude.{
  ℕ, ◌≤◌, ◌≡◌, refl, ◌∙◌, ap, Bool, true, false, List, [], ◌∷◌, ◌++◌, arith, inl, append_assoc,
}
use pp.Text.{Bytes, beq, split, split-append, split-Lacks, Lacks}
use pp.Text.Decimal.{format, parse_uint, max_u64}
use pp.Text.Print.{format-IsDigits, IsDigits-Lacks}
use pp.Text.Parse.{parse-format}
use pp.Jrnl.Blocks.{
  LogBlock, LogSb, slash, sb_of, parse_sb, flatten_sb, lb_of, parse_lb, last_mark, flatten_lb,
}

format-Lacks : (n : ℕ) → Lacks slash (format n)
format-Lacks n = IsDigits-Lacks slash (format n) (inl (omega arith)) (format-IsDigits n)

parsed : (n : ℕ) → n ≤ max_u64 → parse_uint (format n) ≡ n
parsed n h = (parse-format n h).1

sb_parts :
    (sb : LogSb)
    → Lacks slash sb.bitmap
    → split slash (flatten_sb sb).data_ ≡ sb.bitmap ∷ format sb.cnt ∷ format sb.commit ∷ []
unfolding flatten_sb
sb_parts sb h =
    split-append slash sb.bitmap (format sb.cnt ++ slash ∷ format sb.commit) h
    ∙ ap (λ l. sb.bitmap ∷ l)
        (split-append slash (format sb.cnt) (format sb.commit) (format-Lacks sb.cnt)
          ∙ ap (λ l. format sb.cnt ∷ l)
              (split-Lacks slash (format sb.commit) (format-Lacks sb.commit)))

-- A superblock whose bitmap has no slash and whose counters have 64 bits is read back as it was.
pub parse_sb-flatten_sb :
    (sb : LogSb)
    → Lacks slash sb.bitmap
    → sb.cnt ≤ max_u64
    → sb.commit ≤ max_u64
    → parse_sb (flatten_sb sb) ≡ sb
unfolding parse_sb sb_of
parse_sb-flatten_sb sb h a b = ap sb_of (sb_parts sb h) ∙ rw (parsed sb.cnt a, parsed sb.commit b)

mark-Lacks : (b : Bool) → Lacks slash (last_mark b)
unfolding last_mark
mark-Lacks true = (λ e. omega (arith, e), tt)
mark-Lacks false = (λ e. omega (arith, e), tt)

mark-read : (b : Bool) → beq (last_mark b) (b'1' ∷ []) ≡ b
unfolding last_mark
mark-read true = refl
mark-read false = refl

-- The parts of a block of the log: the number comes first.
lb_parts :
    (lb : LogBlock) (l : List Bytes)
    → split slash (lb.rdata ++ slash ∷ last_mark lb.last) ≡ l
    → split slash (flatten_lb lb).data_ ≡ format lb.rnr ∷ l
unfolding flatten_lb
lb_parts lb l e =
    split-append slash (format lb.rnr) (lb.rdata ++ slash ∷ last_mark lb.last) (format-Lacks lb.rnr)
    ∙ ap (λ l. format lb.rnr ∷ l) e

lnr-kept : (lb : LogBlock) → (flatten_lb lb).nr ≡ lb.lnr
unfolding flatten_lb
lnr-kept lb = refl

-- A log block whose data has no slash and whose block number has 64 bits is read back as it was.
pub parse_lb-flatten_lb :
    (lb : LogBlock) → Lacks slash lb.rdata → lb.rnr ≤ max_u64 → parse_lb (flatten_lb lb) ≡ lb
unfolding parse_lb lb_of
parse_lb-flatten_lb lb h a =
    let e =
      split-append slash lb.rdata (last_mark lb.last) h
      ∙ ap (λ l. lb.rdata ∷ l) (split-Lacks slash (last_mark lb.last) (mark-Lacks lb.last)) in
    ap (lb_of (flatten_lb lb).nr) (lb_parts lb (lb.rdata ∷ last_mark lb.last ∷ []) e)
    ∙ rw (parsed lb.rnr a, mark-read lb.last, lnr-kept lb)

-- A log block whose data has two slashes, or more, keeps of its data only what stands before the first of them when it is
-- read back, and its mark of the last block is then taken from what stands between the first two.
pub parse_lb-slash :
    (lb : LogBlock) (before after rest : Bytes)
    → Lacks slash before
    → Lacks slash after
    → lb.rnr ≤ max_u64
    → lb.rdata ≡ before ++ slash ∷ (after ++ slash ∷ rest)
    → parse_lb (flatten_lb lb) ≡ record lb { rdata = before; last = beq after (b'1' ∷ []) }
unfolding parse_lb lb_of
parse_lb-slash lb before after rest h k a e =
    let tail = rest ++ slash ∷ last_mark lb.last in
    let whole : lb.rdata ++ slash ∷ last_mark lb.last ≡ before ++ slash ∷ (after ++ slash ∷ tail) =
      ap (λ d. d ++ slash ∷ last_mark lb.last) e
      ∙ append_assoc before (slash ∷ (after ++ slash ∷ rest)) (slash ∷ last_mark lb.last)
      ∙ ap (λ t. before ++ slash ∷ t)
          (append_assoc after (slash ∷ rest) (slash ∷ last_mark lb.last)) in
    let q =
      ap (split slash) whole
      ∙ split-append slash before (after ++ slash ∷ tail) h
      ∙ ap (λ l. before ∷ l) (split-append slash after tail k) in
    ap (lb_of (flatten_lb lb).nr) (lb_parts lb (before ∷ after ∷ split slash tail) q)
    ∙ rw (parsed lb.rnr a, lnr-kept lb)

-- ===== src/Jrnl/Tests.antt =====
-- The journal on concrete blocks and a disk in memory.
use pp.Prelude.{◌≡◌, refl, true, none, some, ◌>>=◌, [], ◌∷◌, arith}
use pp.Text.{beq, split, codes}
use pp.Text.Decimal.{format, digits, parse_uint, parse_base10, scan}
use pp.Kvraft.State.{StringMap, store}
use pp.Bio.Disk.{bget, bpush, brelse, got}
use pp.Bio.Mock.{mock_disk, mock_get, mock_put, mock_acquire, mock_release}
use pp.Jrnl.Txn.{begin_transaction, begin_with, pushed_or, free_segment}
use pp.Jrnl.Blocks.{sb_of, LogBlock, LogSb, parse_sb, flatten_sb, parse_lb, flatten_lb}
use pp.Jrnl.RoundTrip.{parse_sb-flatten_sb, parse_lb-flatten_lb, parse_lb-slash}

abbrev busy : LogSb
busy = record { bitmap = b'0' ∷ b'1' ∷ []; cnt = 1; commit = 0 }

parse_sb-flatten_sb_example : parse_sb (flatten_sb busy) ≡ busy
parse_sb-flatten_sb_example =
    parse_sb-flatten_sb busy (λ e. omega (arith, e), (λ e. omega (arith, e), tt)) (omega arith)
      (omega arith)

abbrev entry : LogBlock
entry = record { lnr = 103; rnr = 7; rdata = b'a' ∷ b'b' ∷ []; last = true }

parse_lb-flatten_lb_example : parse_lb (flatten_lb entry) ≡ entry
parse_lb-flatten_lb_example =
    parse_lb-flatten_lb entry (λ e. omega (arith, e), (λ e. omega (arith, e), tt)) (omega arith)

abbrev path : LogBlock
path = record entry { rdata = b'a' ∷ b'/' ∷ b'/' ∷ b'b' ∷ [] }

parse_lb-slash_example :
    parse_lb (flatten_lb path) ≡ record path { rdata = b'a' ∷ []; last = beq [] (b'1' ∷ []) }
parse_lb-slash_example =
    parse_lb-slash path (b'a' ∷ []) [] (b'b' ∷ []) (λ e. omega (arith, e), tt) tt (omega arith) refl

abbrev blank : StringMap
blank = λ _. none

-- A superblock with one segment taken, and no commit under way.
abbrev formatted : StringMap
formatted = store blank (b'2' ∷ []) (codes "10000/1/0")

-- A transaction takes the second segment.
begin_second :
    (begin_transaction mock_disk 1 formatted >>= λ r. some r.1)
    ≡ some (record { blk_seg = 1; offset = 0 })
unfolding begin_transaction begin_with pushed_or free_segment bget bpush brelse got mock_disk
    mock_get mock_put mock_acquire mock_release parse_sb sb_of flatten_sb split parse_uint
    parse_base10 scan format digits
begin_second = refl

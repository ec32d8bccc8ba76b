-- ===== src/Jrnl/Runs.antt =====
-- The journal's transactions on a disk in memory.
use pp.Prelude.{
  ℕ, zero, suc, ◌≡◌, ◌≢◌, refl, true, none, some, Returns, [], ◌∷◌, arith, some-cancel,
}
use pp.Text.{Bytes, split, codes}
use pp.Text.Decimal.{format, digits, parse_uint, parse_base10, scan}
use pp.Kvraft.State.{StringMap, store}
use pp.Bio.Disk.{Block}
use pp.Bio.Mock.{mock_disk}
use pp.Bio.Mock.AsLocal.{content, mock_local}
use pp.Jrnl.Blocks.{LogSb, sb_of, parse_sb, lb_of, parse_lb}
use pp.Jrnl.Txn.{begin_transaction}
use pp.Jrnl.Txn.Begun.{IsFirstFree, Begun, begin_transaction-Begun}
use pp.Jrnl.Replay.State.{Segment, write_all, writes, AllLogged, Holds}
use pp.Jrnl.Setup.{init_sb}
use pp.Jrnl.Setup.Atomic.{Idle, SetUp, init_sb-recovers, init_sb-forgets}
use pp.Jrnl.Close.Whole.{run_transaction}
use pp.Jrnl.Close.Aborted.{run_abort, Forgotten, run_abort-Forgotten}
use pp.Jrnl.Close.Atomic.{Atomic, no_segments, run_transaction-Atomic}

abbrev disk_with : Bytes → StringMap
disk_with text = store (λ _. none) (b'2' ∷ []) text

disk_with-Idle : (text : Bytes) → Idle mock_local (disk_with text)
disk_with-Idle text = record { sb = refl; log = λ m i. refl }

abbrev empty_disk : StringMap
empty_disk = disk_with (codes "0/0/0")

-- What the superblock of such a disk says.
abbrev Says : StringMap → LogSb → Type 0
Says kv sb = parse_sb (record { nr = 2; data_ = content kv 2 }) ≡ sb

empty_disk-Says : Says empty_disk (no_segments 0)
unfolding parse_sb sb_of split format digits parse_uint parse_base10 scan
empty_disk-Says = refl

abbrev letters : Block
letters = record { nr = 100_005; data_ = b'a' ∷ b'b' ∷ [] }

abbrev digit : Block
digit = record { nr = 100_006; data_ = b'7' ∷ [] }

run_transaction-Atomic_example :
    Returns
      (run_transaction mock_disk 200 (letters ∷ digit ∷ []) empty_disk)
      (Atomic mock_local (letters ∷ digit ∷ []) empty_disk)
run_transaction-Atomic_example =
    run_transaction-Atomic mock_local 199 0 letters (digit ∷ []) empty_disk (omega arith)
      (omega arith) (omega arith) (disk_with-Idle (codes "0/0/0")) empty_disk-Says

run_abort-Forgotten_example :
    Returns
      (run_abort mock_disk 1 (letters ∷ digit ∷ []) empty_disk)
      (Forgotten mock_local 0 empty_disk)
run_abort-Forgotten_example =
    run_abort-Forgotten mock_local 0 0 (letters ∷ digit ∷ []) empty_disk (omega arith) (omega arith)
      (disk_with-Idle (codes "0/0/0")) empty_disk-Says

-- A disk whose superblock says that one transaction is open, in the first of two segments.
abbrev one_open : LogSb
one_open = record { bitmap = b'1' ∷ b'0' ∷ []; cnt = 1; commit = 0 }

abbrev open_disk : StringMap
open_disk = disk_with (codes "10/1/0")

open_disk-Says : Says open_disk one_open
unfolding parse_sb sb_of split format digits parse_uint parse_base10 scan
open_disk-Says = refl

taken_first : (c : ℕ) → some b'1' ≡ some c → c ≢ b'0'
taken_first c e z = let q : b'1' ≡ c = some-cancel e in absurd (omega (arith, q, z))

second_free : IsFirstFree (b'1' ∷ b'0' ∷ []) 1
second_free = record {
  free = refl;
  before = elim [
    | zero ↦ λ c lt e z. taken_first c e z
    | suc j ↦ λ c lt e. absurd (omega (arith, lt))
  ];
}

begin_transaction-Begun_example :
    Returns (begin_transaction mock_disk 1 open_disk) (Begun mock_local one_open 1 open_disk)
begin_transaction-Begun_example =
    begin_transaction-Begun mock_local 0 one_open 1 open_disk (disk_with-Idle (codes "10/1/0"))
      open_disk-Says refl second_free

init_sb-forgets_example :
    Returns (init_sb mock_disk 1 open_disk) (SetUp mock_local (content open_disk))
init_sb-forgets_example =
    init_sb-forgets mock_local 0 one_open open_disk (disk_with-Idle (codes "10/1/0")) open_disk-Says
      refl

-- A commit was under way, and the log's first block is a whole segment.
abbrev cut_off : LogSb
cut_off = record { bitmap = b'1' ∷ []; cnt = 0; commit = 1 }

abbrev cut_disk : StringMap
cut_disk = store (disk_with (codes "1/0/1")) (b'3' ∷ []) (codes "100005/ab/1")

cut_disk-Idle : Idle mock_local cut_disk
cut_disk-Idle = record { sb = refl; log = λ m i. refl }

cut_disk-Says : Says cut_disk cut_off
unfolding parse_sb sb_of split format digits parse_uint parse_base10 scan
cut_disk-Says = refl

abbrev segment : ℕ → Segment
segment i = (letters, [])

cut_disk-Holds : Holds (content cut_disk) 3 letters true
unfolding parse_lb lb_of split format digits parse_uint parse_base10 scan
cut_disk-Holds = refl

cut_disk-AllLogged : AllLogged (content cut_disk) segment 0 (b'1' ∷ [])
cut_disk-AllLogged = (λ _. (omega arith, (omega arith, omega arith, cut_disk-Holds)), tt)

init_sb-recovers_example :
    Returns
      (init_sb mock_disk 200 cut_disk)
      (SetUp mock_local (write_all (writes segment 0 (b'1' ∷ [])) (content cut_disk)))
init_sb-recovers_example =
    init_sb-recovers mock_local 199 cut_off segment 0 (content cut_disk) cut_disk (omega arith)
      cut_disk-Idle cut_disk-Says (omega arith) cut_disk-AllLogged (λ m le n. refl)

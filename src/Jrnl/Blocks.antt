-- ===== src/Jrnl/Blocks.antt =====
-- jrnl/dat.go and jrnl/parse.go: the blocks of the log and its superblock, as text.
use pp.Prelude.{ℕ, ◌+◌, ◌*◌, Bool, true, false, List, [], ◌∷◌, ◌++◌}
use pp.Bio.Disk.{Block}
use pp.Text.{Bytes, beq, split}
use pp.Text.Decimal.{format, parse_uint}

pub record LogBlock : Type 0 where
  pub lnr : ℕ
  pub rnr : ℕ
  pub rdata : Bytes
  pub last : Bool

pub record LogSb : Type 0 where
  pub bitmap : Bytes
  pub cnt : ℕ
  pub commit : ℕ

abbrev pub sb_nr : ℕ
sb_nr = 2

abbrev pub log_start : ℕ
log_start = 3

abbrev pub blk_per_sys : ℕ
blk_per_sys = 100

abbrev pub sys_per_log : ℕ
sys_per_log = 1000

abbrev pub end_jrnl : ℕ
end_jrnl = blk_per_sys * sys_per_log + 3

abbrev pub get_log_segment_start : ℕ → ℕ
get_log_segment_start seg = seg * blk_per_sys + log_start

abbrev pub slash : ℕ
slash = b'/'

unfoldable pub sb_of : List Bytes → LogSb
sb_of [] = record { bitmap = []; cnt = 0; commit = 0 }
sb_of (a ∷ []) = record { bitmap = []; cnt = 0; commit = 0 }
sb_of (a ∷ b ∷ []) = record { bitmap = []; cnt = 0; commit = 0 }
sb_of (a ∷ b ∷ c ∷ []) = record { bitmap = a; cnt = parse_uint b; commit = parse_uint c }
sb_of (a ∷ b ∷ c ∷ d ∷ l) = record { bitmap = []; cnt = 0; commit = 0 }

unfoldable pub parse_sb : Block → LogSb
unfolding sb_of
parse_sb blk = sb_of (split slash blk.data_)

unfoldable pub flatten_sb : LogSb → Block
flatten_sb sb = record {
  nr = sb_nr;
  data_ = sb.bitmap ++ slash ∷ (format sb.cnt ++ slash ∷ format sb.commit);
}

unfoldable pub lb_of : ℕ → List Bytes → LogBlock
lb_of nr [] = record { lnr = nr; rnr = 0; rdata = []; last = false }
lb_of nr (a ∷ []) = record { lnr = nr; rnr = 0; rdata = []; last = false }
lb_of nr (a ∷ b ∷ []) = record { lnr = nr; rnr = 0; rdata = []; last = false }
lb_of nr (a ∷ b ∷ c ∷ l) = record {
  lnr = nr;
  rnr = parse_uint a;
  rdata = b;
  last = beq c (b'1' ∷ []);
}

unfoldable pub parse_lb : Block → LogBlock
unfolding lb_of
parse_lb blk = lb_of blk.nr (split slash blk.data_)

unfoldable pub last_mark : Bool → Bytes
last_mark true = b'1' ∷ []
last_mark false = b'0' ∷ []

unfoldable pub flatten_lb : LogBlock → Block
unfolding last_mark
flatten_lb lb = record {
  nr = lb.lnr;
  data_ = format lb.rnr ++ slash ∷ (lb.rdata ++ slash ∷ last_mark lb.last);
}

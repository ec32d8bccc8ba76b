-- ===== src/Fs/Tests.antt =====
-- Descriptors in the last bytes of the first block of a file.
use pp.Prelude.{
  ℕ, zero, suc, ◌+◌, ◌≡◌, refl, sym, ap, ap₂, ◌∙◌, none, some, List, [], ◌∷◌, ◌++◌, length,
  length-append, replicate, length-replicate, ◌==◌, if◌then◌else◌, arith, Returns,
}
use pp.Text.Decimal.{format, digits, parse_uint, parse_base10, scan}
use pp.Kvraft.State.{StringMap, store}
use pp.Bio.Mock.AsLocal.{content}
use pp.Jrnl.Blocks.{slash, sb_nr, sb_of, parse_sb}
use pp.Jrnl.Setup.Atomic.{Idle}
use pp.Jrnl.Close.Atomic.{no_segments}
use pp.Inode.Contents.{text}
use pp.Inode.File.{Readable}
use pp.Inode.Write.{Writable}
use pp.Fs.{set_file, write_fd}
use pp.Fs.Writes.{Spliced, write_fd-Spliced}
use pp.Fs.ReadBack.{ReadsBack, write_fd-read_fd}
use pp.Bio.Mock.{mock_disk}
use pp.Bio.Mock.AsLocal.{mock_local}
use pp.Inode.Tests.{two_blocks, one_coding, full_block, with_file, with_file-Readable}
use pp.Fs.{Filesystem, lookup_name, read_fd}
use pp.Text.{Bytes, Lacks, split, codes}
use pp.Fs.Directory.{dir_text, first_named, lookup_name-first_named}
use pp.Fs.Reads.{GoesOn, read_fd-GoesOn}

abbrev one_open : Filesystem
one_open = record {
  rooti = 0;
  fd_table = λ n. if n == 3 then some (record { inum = 7; offset = 4094 }) else none;
  max_fd = 4;
}

read_fd-GoesOn_example :
    Returns
      (read_fd mock_disk one_coding 300_000 1 3 3 one_open with_file)
      (GoesOn mock_local one_coding 300_000 0 3 3 5 one_open with_file)
read_fd-GoesOn_example =
    read_fd-GoesOn mock_local one_coding 300_000 0 3 3 5 (record { inum = 7; offset = 4094 })
      two_blocks one_open with_file refl with_file-Readable

abbrev two_entries : List (Bytes × ℕ)
two_entries = (codes "ab", 1) ∷ (codes "b", 2) ∷ []

lookup_name-first_named_example :
    lookup_name (codes "b") (dir_text two_entries) ≡ first_named (codes "b") two_entries
lookup_name-first_named_example =
    lookup_name-first_named (codes "b") two_entries (λ e. cc)
      (
        ((omega arith), ((omega arith), tt)),
        ((omega arith), ((omega arith), tt)),
        omega arith,
        (((omega arith), tt), ((omega arith), tt), omega arith, tt),
      )

-- The disk with the file has an empty superblock too.
abbrev pub with_log : StringMap
with_log = store with_file (codes "2") (codes "0/0/0")

pub with_log-Says : parse_sb (record { nr = sb_nr; data_ = content with_log sb_nr }) ≡ no_segments 0
unfolding parse_sb sb_of split format digits parse_uint parse_base10 scan
with_log-Says = refl

pub with_log-Idle : Idle mock_local with_log
with_log-Idle = record { sb = refl; log = λ m i. refl }

first_block : content with_log 200_000 ≡ full_block
unfolding format digits
first_block = refl

second_block : content with_log 200_001 ≡ codes "bc"
unfolding format digits
second_block = refl

length-with_log : length (text (content with_log) two_blocks.addrs) ≡ 4098
length-with_log =
    ap₂ (λ x y. length (x ++ (y ++ []))) first_block second_block
    ∙ length-append full_block (codes "bc")
    ∙ ap (λ n. n + 2) (length-replicate {A = ℕ} 4096 b'a')

letters-Lacks : (n : ℕ) → Lacks slash (replicate n b'a')
letters-Lacks zero = tt
letters-Lacks (suc n) = (λ e. omega (arith, e), letters-Lacks n)

with_log-Readable : Readable mock_local one_coding 7 two_blocks with_log
unfolding format digits
with_log-Readable = record {
  below = omega arith;
  there = refl;
  decoded = refl;
  serial = refl;
  free = refl;
  blocks = (omega arith, refl, (omega arith, refl, tt));
  others = ((omega arith), ((omega arith), tt));
  full = (
    ap length first_block ∙ length-replicate {A = ℕ} 4096 b'a',
    omega (arith, ap length second_block),
  );
}

pub with_log-Writable :
    (start : ℕ) → Writable mock_local one_coding start 7 4094 (codes "xyz") two_blocks with_log
with_log-Writable start = record {
  readable = with_log-Readable;
  apart = (((omega arith), tt), (tt, tt));
  plain = (
    (omega arith, omega arith),
    rw first_block (letters-Lacks 4096),
    ((omega arith, omega arith), rw second_block ((omega arith), ((omega arith), tt)), tt),
  );
  slashless = ((omega arith), ((omega arith), ((omega arith), tt)));
  size = sym length-with_log;
  some_data = omega arith;
  inside = omega (arith, length-with_log);
  short = omega arith;
}

-- Two descriptors at one place of the file.
abbrev two_open : Filesystem
two_open = record one_open {
  fd_table = set_file one_open.fd_table 4 (some (record { inum = 7; offset = 4094 }));
}

write_fd-Spliced_example :
    Returns (write_fd mock_disk one_coding 300_000 200 3 (codes "xyz") one_open with_log) (
      Spliced mock_local one_coding 300_000
        (record { inum = 7; offset = 4094 })
        two_blocks
        3
        (codes "xyz")
        one_open
        with_log)
write_fd-Spliced_example =
    write_fd-Spliced mock_local one_coding 300_000 199 0 3 (codes "xyz")
      (record { inum = 7; offset = 4094 }) two_blocks one_open with_log (omega arith) refl
      (with_log-Writable 300_000) with_log-Idle with_log-Says

write_fd-read_fd_example :
    Returns
      (write_fd mock_disk one_coding 300_000 200 3 (codes "xyz") two_open with_log)
      (ReadsBack mock_local one_coding 300_000 199 3 4 (codes "xyz"))
write_fd-read_fd_example =
    write_fd-read_fd mock_local one_coding 300_000 199 0 3 4 (codes "xyz")
      (record { inum = 7; offset = 4094 }) two_blocks two_open with_log (omega arith) (omega arith)
      refl refl (with_log-Writable 300_000) with_log-Idle with_log-Says

-- ===== src/Inode/Tests.antt =====
-- A file of two blocks on a disk in memory, with a coding that numbers its inodes by one byte.
use pp.Prelude.{
  ℕ, zero, suc, ◌+◌, ◌≡◌, ◌<◌, ◌≤◌, refl, none, [], ◌∷◌, replicate, length-replicate, take, drop,
  length, arith, Returns, inl,
}
use pp.Text.{Bytes, codes}
use pp.Text.Decimal.{format, digits}
use pp.Kvraft.State.{StringMap, store}
use pp.Bio.Mock.{mock_disk}
use pp.Bio.Mock.AsLocal.{content, mock_local}
use pp.Inode.{Inode, file, Coding, first_inode_addr, alloci}
use pp.Inode.Chunk.{splice, write_chunk, write_chunk-splice}
use pp.Inode.Blocks.{readi}
use pp.Inode.Allocated.{FirstUnused, Allocated, IsUsed, alloci-Allocated}
use pp.Inode.File.{Readable, IsRead, readi-IsRead}

abbrev pub two_blocks : Inode
two_blocks = record {
  serialnum = 7;
  refcnt = 1;
  filesize = 4098;
  addrs = 200_000 ∷ 200_001 ∷ [];
  mode = file;
}

-- It knows one inode only.
abbrev pub one_coding : Coding
one_coding = record { encode = λ i. codes "i"; i_decode = λ t. two_blocks }

abbrev pub full_block : Bytes
full_block = replicate 4096 b'a'

abbrev pub with_file : StringMap
with_file =
    store (store (store (λ _. none) (codes "100012") (codes "i")) (codes "200000") full_block)
      (codes "200001") (codes "bc")

write_chunk-splice_example :
    write_chunk 2 (codes "xy") (codes "abcdef")
    ≡ (splice 2 (take 4094 (codes "xy")) (codes "abcdef"), drop 4094 (codes "xy"))
write_chunk-splice_example =
    write_chunk-splice 2 (codes "xy") (codes "abcdef") (omega arith) (omega arith) (omega arith)

short : length (content with_file 200_001) ≤ 4096
unfolding format digits
short = let e : length (content with_file 200_001) ≡ 2 = refl in omega (arith, e)

pub with_file-Readable : Readable mock_local one_coding 7 two_blocks with_file
unfolding format digits
with_file-Readable = record {
  below = omega arith;
  there = refl;
  decoded = refl;
  serial = refl;
  free = refl;
  blocks = (omega arith, refl, (omega arith, refl, tt));
  others = ((omega arith), ((omega arith), tt));
  full = (length-replicate {A = ℕ} 4096 b'a', short);
}

readi-IsRead_example :
    Returns
      (readi mock_disk one_coding 1 7 4095 10 with_file)
      (IsRead mock_local one_coding two_blocks 4095 10 with_file)
readi-IsRead_example =
    readi-IsRead mock_local one_coding 0 7 4095 10 two_blocks with_file with_file-Readable

-- The inode 0 is in use, the inode 1 is not.
abbrev one_used : StringMap
one_used = store (λ _. none) (codes "100005") (codes "i")

one_used-IsUsed : (m : ℕ) → m < 1 → IsUsed one_coding (content one_used (first_inode_addr + m))
unfolding format digits
one_used-IsUsed zero h = (λ e. absurd cc, omega arith)
one_used-IsUsed (suc m) h = absurd (omega (arith, h))

one_used-FirstUnused : FirstUnused mock_local one_coding 0 1 one_used
unfolding format digits
one_used-FirstUnused = record {
  idle = record { sb = refl; log = λ m i. refl };
  free = λ m a b. refl;
  used = λ m a b. one_used-IsUsed m b;
  unused = inl refl;
}

alloci-Allocated_example :
    Returns
      (alloci mock_disk one_coding 1 file (record { blk_seg = 3; offset = 4 }) one_used)
      (Allocated mock_local one_coding (record { blk_seg = 3; offset = 4 }) 1 file one_used)
alloci-Allocated_example =
    alloci-Allocated mock_local one_coding 0 1 file (record { blk_seg = 3; offset = 4 }) one_used
      (omega arith) one_used-FirstUnused (omega arith) (omega arith)
      ((omega arith, omega arith), ((omega arith), tt))

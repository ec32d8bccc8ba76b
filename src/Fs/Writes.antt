-- ===== src/Fs/Writes.antt =====
-- fs/fs.go, inode/iblock.go and jrnl/txn.go: a write inside a file, with its transaction.
use pp.Prelude.{ℕ, suc, ◌+◌, ◌*◌, ◌≤◌, ◌≡◌, refl, Option, some, length, Returns}
use pp.Text.{Bytes}
use pp.Bio.Disk.{Disk}
use pp.Bio.Local.{LocalDisk}
use pp.Jrnl.Blocks.{sb_nr, blk_per_sys, parse_sb}
use pp.Jrnl.Setup.Atomic.{Idle}
use pp.Jrnl.Close.Atomic.{no_segments}
use pp.Inode.{Inode, Coding}
use pp.Inode.Write.{Writable}
use pp.Fs.{File, Filesystem, set_file, write_result, write_open, write_fd}
use pp.Fs.Transacted.{writei-Transacted}
use pp.Fs.Ended.{Stored}

module _ {S : Type 0} {dsk : Disk S} (d : LocalDisk dsk) (coding : Coding) (start_data : ℕ) where
  -- The write was done, and the descriptor has moved behind the bytes.
  pub record Spliced (fl : File) (i : Inode) (fd : ℕ) (data_ : Bytes) (f : Filesystem) (s : S)
      (r : S × Filesystem × Option ℕ) : Type 0 where
    pub count : r.2 ≡ some (length data_)
    pub moved : r.1 ≡ record f {
      fd_table = set_file f.fd_table fd (some (record fl { offset = fl.offset + length data_ }));
    }
    pub stored : Stored d coding start_data fl.inum fl.offset data_ i s r.0

  -- On a disk of one client with no lock of the journal held and a superblock with no segment taken, for an open descriptor
  -- of a file whose inode is among the inodes of the disk and stored under its own number, whose inode and blocks are free, whose
  -- blocks lie behind the journal, are not that of the inode, stand once in its list of at most a hundred, are full but the last, and hold no slash,
  -- and whose size is the length of its text, `Write` of some bytes, at least one and without a slash, that end inside the
  -- file does not block or fail and gives their number, with fuel of at least two hundred; when it returns, the text of the file has these bytes from the descriptor's place on and is
  -- otherwise as it was, no other block behind the journal is changed, the descriptor stands behind the bytes, every
  -- lock that was free is free, the file can be read, and the superblock is empty.
  pub write_fd-Spliced :
      (fuel n fd : ℕ) (data_ : Bytes) (fl : File) (i : Inode) (f : Filesystem) (s : S)
      → 2 * blk_per_sys ≤ suc fuel
      → f.fd_table fd ≡ some fl
      → Writable d coding start_data fl.inum fl.offset data_ i s
      → Idle d s
      → parse_sb (record { nr = sb_nr; data_ = d.content s sb_nr }) ≡ no_segments n
      → Returns (write_fd dsk coding start_data (suc fuel) fd data_ f s) (Spliced fl i fd data_ f s)
  unfolding write_fd write_open write_result
  write_fd-Spliced fuel n fd data_ fl i f s enough there w idle p =
      let t =
        writei-Transacted d coding start_data fuel n fl.inum fl.offset data_ i s enough w idle p in
      let fl' : File = record fl { offset = fl.offset + length data_ } in
      (
        (t.third, record f { fd_table = set_file f.fd_table fd (some fl') }, some (length data_)),
        rw (there, t.begun, t.written, t.closed) refl,
        record { count = refl; moved = refl; stored = t.stored },
      )

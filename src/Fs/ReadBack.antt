-- ===== src/Fs/ReadBack.antt =====
-- fs/fs.go: what one descriptor wrote, another one reads.
use pp.Prelude.{
  ℕ, suc, ◌+◌, ◌*◌, ◌≤◌, ◌≡◌, ◌≢◌, ap, ◌∙◌, sym, false, Option, some, take, drop, length, ◌==◌,
  arith, Returns,
}
use pp.Text.{Bytes}
use pp.Bio.Disk.{Disk}
use pp.Bio.Local.{LocalDisk}
use pp.Jrnl.Blocks.{sb_nr, blk_per_sys, parse_sb}
use pp.Jrnl.Setup.Atomic.{Idle}
use pp.Jrnl.Close.Atomic.{no_segments}
use pp.Inode.{Inode, Coding}
use pp.Inode.Lengths.{take-splice}
use pp.Inode.Write.{Writable}
use pp.Fs.{File, Filesystem, read_fd, write_fd}
use pp.Fs.Reads.{entry_self, read_fd-ReadAt}
use pp.Fs.Writes.{write_fd-Spliced}

module _ {S : Type 0} {dsk : Disk S} (d : LocalDisk dsk) (coding : Coding) (start_data : ℕ) where
  -- The descriptor `fd'` reads the bytes, and is where the descriptor `fd` is then.
  abbrev pub ReadsBack : ℕ → ℕ → ℕ → Bytes → S × Filesystem × Option ℕ → Type 0
  ReadsBack fuel fd fd' data_ r =
      (r.2 ≡ some (length data_))
      × Returns (read_fd dsk coding start_data (suc fuel) fd' (length data_) r.1 r.0)
          (λ r'. (r'.2 ≡ some data_) × (r'.1.fd_table fd' ≡ r'.1.fd_table fd))

  -- On a disk of one client with no lock of the journal held and a superblock with no segment taken, with two open
  -- descriptors at one place of a file whose inode is among the inodes of the disk and stored under its own number, whose
  -- inode and blocks are free, whose blocks lie behind the journal, are not that of the inode, stand once in its list of at most a hundred, are full
  -- but the last, and hold no slash, and whose size is the length of its text: with fuel of at least two hundred, a
  -- `Write` of some bytes, at least one and without a slash, that end inside the file with one of them, and then a `Read` of as many bytes with the other one, do not block or fail; the read gives the bytes
  -- that were written, and the two descriptors are at one place again.
  pub write_fd-read_fd :
      (fuel n fd fd' : ℕ) (data_ : Bytes) (fl : File) (i : Inode) (f : Filesystem) (s : S)
      → 2 * blk_per_sys ≤ suc fuel
      → fd ≢ fd'
      → f.fd_table fd ≡ some fl
      → f.fd_table fd' ≡ some fl
      → Writable d coding start_data fl.inum fl.offset data_ i s
      → Idle d s
      → parse_sb (record { nr = sb_nr; data_ = d.content s sb_nr }) ≡ no_segments n
      → Returns
          (write_fd dsk coding start_data (suc fuel) fd data_ f s)
          (ReadsBack fuel fd fd' data_)
  write_fd-read_fd fuel n fd fd' data_ fl i f s enough apart there there' w idle p =
      let (r, e, a) =
        write_fd-Spliced d coding start_data fuel n fd data_ fl i f s enough there w idle p in
      let other : (fd == fd') ≡ false = ground (arith, apart) in
      let back : (fd' == fd) ≡ false = ground (arith, apart) in
      let moved : File = record fl { offset = fl.offset + length data_ } in
      let at : r.1.fd_table fd' ≡ some fl = ap (λ h. h.fd_table fd') a.moved ∙ rw other there' in
      let (r', e', a') =
        read_fd-ReadAt d coding start_data fuel fd' (length data_) fl i r.1 r.0 at
          a.stored.readable in
      let same : a'.bytes ≡ data_ =
        a'.are
        ∙ ap (λ t. take (length data_) (drop fl.offset t)) a.stored.contents
        ∙ take-splice fl.offset data_ _ w.inside in
      let now : r'.1.fd_table fd' ≡ some moved =
        entry_self r.1 r'.1 fd' (record fl { offset = fl.offset + length a'.bytes }) a'.moved
        ∙ ap (λ b. some (record fl { offset = fl.offset + length b })) same in
      let then_ : r'.1.fd_table fd ≡ some moved =
        ap (λ h. h.fd_table fd) a'.moved ∙ rw back (entry_self f r.1 fd moved a.moved) in
      (r, e, (a.count, (r', e', (a'.result ∙ ap some same, now ∙ sym then_))))

-- ===== src/Cli/Session.antt =====
-- main.go: what is typed in a transaction is read again after its end.
use pp.Prelude.{
  ℕ, suc, ◌*◌, ◌≤◌, ◌≡◌, refl, sym, ap, ap₂, ◌∙◌, true, false, Option, none, some, List, [], ◌∷◌,
  take, drop, length, arith, Returns,
}
use pp.Text.{Bytes, codes, split}
use pp.Text.Decimal.{format, max_u64}
use pp.Bio.Disk.{Disk}
use pp.Bio.Local.{LocalDisk}
use pp.Jrnl.Blocks.{sb_nr, blk_per_sys, parse_sb}
use pp.Jrnl.Txn.{TxnHandle, begin_transaction}
use pp.Jrnl.Close.{end_transaction}
use pp.Jrnl.Setup.Atomic.{Idle}
use pp.Jrnl.Close.Atomic.{no_segments}
use pp.Inode.{Inode, Coding, end_inode}
use pp.Inode.Blocks.{readi, writei}
use pp.Inode.Contents.{length-text}
use pp.Inode.Lengths.{take-splice}
use pp.Inode.File.{readi-IsRead}
use pp.Inode.Write.{Writable}
use pp.Fs.Transacted.{writei-Transacted}
use pp.Fs.Ended.{handle_at}
use pp.Cli.Words.{without_newlines}
use pp.Cli.Line.{IsWord, format-IsWord, line_of, words-line_of, parse_to-format}
use pp.Cli.{
  Said, started, ended, wrote_inode, inode_bytes, Cli, shown_write, run_begin, run_end, readi_at,
  run_readi, writei_at, run_writei, command, run_words, run_line, run_lines,
}

writei-IsWord : IsWord (codes "writei")
writei-IsWord = (omega arith, omega arith)

readi-IsWord : IsWord (codes "readi")
readi-IsWord = (omega arith, omega arith)

module _ {S : Type 0} (dsk : Disk S) (coding : Coding) where
  begin_line :
      (fuel : ℕ) (c : Cli) (s s₁ : S) (t : TxnHandle)
      → c.in_txn ≡ false
      → begin_transaction dsk fuel s ≡ some (s₁, t)
      → run_line dsk coding fuel (codes "begin") c s
        ≡ some (s₁, record c { in_txn = true; txn = some t }, started)
  unfolding run_line run_words command run_begin without_newlines split
  begin_line fuel c s s₁ t out e = rw (out, e) refl

  end_line :
      (fuel : ℕ) (c : Cli) (s s₁ : S) (t : TxnHandle)
      → c.in_txn ≡ true
      → c.txn ≡ some t
      → end_transaction dsk fuel t s ≡ some (s₁, tt)
      → run_line dsk coding fuel (codes "end") c s
        ≡ some (s₁, record c { in_txn = false; txn = none }, ended)
  unfolding run_line run_words command run_end without_newlines split
  end_line fuel c s s₁ t inside at e = rw (inside, at, e) refl

  writei_line :
      (fuel inum offset : ℕ) (data_ : Bytes) (c : Cli) (s s₁ : S) (t t₁ : TxnHandle)
      (res : Option ℕ)
      → inum ≤ 65_535
      → offset ≤ max_u64
      → IsWord data_
      → c.in_txn ≡ true
      → c.txn ≡ some t
      → writei dsk coding end_inode fuel t inum offset data_ s ≡ some (s₁, t₁, res)
      → run_line dsk coding fuel (line_of (codes "writei") (format inum) (format offset) data_) c s
        ≡ some (s₁, record c { txn = some t₁ }, shown_write wrote_inode res)
  unfolding run_line run_words command run_writei writei_at
  writei_line fuel inum offset data_ c s s₁ t t₁ res small low word inside at e =
      let line =
        words-line_of (codes "writei") (format inum) (format offset) data_ writei-IsWord
          (format-IsWord inum) (format-IsWord offset) word in
      let number = parse_to-format 65_535 inum (omega arith) small in
      let place = parse_to-format max_u64 offset (omega arith) low in
      rw (line, inside, number, place, at, e) refl

  readi_line :
      (fuel inum offset count : ℕ) (c : Cli) (s s₁ : S) (res : Bytes)
      → inum ≤ 65_535
      → offset ≤ max_u64
      → count ≤ max_u64
      → readi dsk coding fuel inum offset count s ≡ some (s₁, res)
      → run_line dsk coding fuel
          (line_of (codes "readi") (format inum) (format offset) (format count))
          c
          s
        ≡ some (s₁, c, inode_bytes res)
  unfolding run_line run_words command run_readi readi_at
  readi_line fuel inum offset count c s s₁ res small low few e =
      let line =
        words-line_of (codes "readi") (format inum) (format offset) (format count) readi-IsWord
          (format-IsWord inum) (format-IsWord offset) (format-IsWord count) in
      let number = parse_to-format 65_535 inum (omega arith) small in
      let place = parse_to-format max_u64 offset (omega arith) low in
      let much = parse_to-format max_u64 count (omega arith) few in
      rw (line, number, place, much, e) refl

-- The lines of the session.
abbrev pub session : ℕ → ℕ → Bytes → List Bytes
session inum offset data_ =
    codes "begin"
    ∷ line_of (codes "writei") (format inum) (format offset) data_
    ∷ codes "end"
    ∷ line_of (codes "readi") (format inum) (format offset) (format (length data_))
    ∷ []

-- What is printed in it.
abbrev pub answers : Bytes → List Said
answers data_ = started ∷ wrote_inode (length data_) ∷ ended ∷ inode_bytes data_ ∷ []

module _ {S : Type 0} {dsk : Disk S} (d : LocalDisk dsk) (coding : Coding) where
  -- At a prompt outside of a transaction, on a disk of one client with no lock of the journal held and a superblock with
  -- no segment taken, for a file whose inode is among the inodes of the disk and stored under its own number, whose inode
  -- and blocks are free, whose blocks lie behind the journal, are not that of the inode, stand once in its list of at most a hundred, are full but
  -- the last, and hold no slash, and whose size is the length of its text, and for some bytes, at least one and without a
  -- slash, a blank or a newline, that end inside the file, with fuel of at least two hundred: the lines `begin`, `writei` with the printed numbers and the bytes, `end`, and `readi` of as many bytes do
  -- not block or fail; they print that the transaction started, the number of the bytes, that it ended, and the bytes,
  -- and leave the state of the program as it was.
  pub run_lines-session :
      (fuel n inum offset : ℕ) (data_ : Bytes) (i : Inode) (c : Cli) (s : S)
      → 2 * blk_per_sys ≤ suc fuel
      → c.in_txn ≡ false
      → c.txn ≡ none
      → IsWord data_
      → Writable d coding end_inode inum offset data_ i s
      → Idle d s
      → parse_sb (record { nr = sb_nr; data_ = d.content s sb_nr }) ≡ no_segments n
      → Returns
          (run_lines dsk coding (suc fuel) (session inum offset data_) c s)
          (λ r. (r.1 ≡ c) × (r.2 ≡ answers data_))
  unfolding run_lines
  run_lines-session fuel n inum offset data_ i c s enough out nil word w idle p =
      let t = writei-Transacted d coding end_inode fuel n inum offset data_ i s enough w idle p in
      let s₃ = t.third in
      let ((s₄, res), e₄, (read, kept)) =
        readi-IsRead d coding fuel inum offset (length data_) i s₃ t.stored.readable in
      let back : res ≡ data_ =
        read
        ∙ ap (λ x. take (length data_) (drop offset x)) t.stored.contents
        ∙ take-splice offset data_ _ w.inside in
      let len = length-text (d.content s) i.addrs w.readable.full in
      let few = w.short in
      let inside = w.inside in
      let small : inum ≤ 65_535 = omega (arith, w.readable.below) in
      let low : offset ≤ max_u64 = omega (arith, len, few, inside) in
      let c₁ : Cli = record c { in_txn = true; txn = some (handle_at 0) } in
      let c₂ : Cli = record c { in_txn = true; txn = some t.handle } in
      let c₃ : Cli = record c { in_txn = false; txn = none } in
      let l₁ = begin_line dsk coding (suc fuel) c s t.first (handle_at 0) out t.begun in
      let l₂ =
        writei_line dsk coding (suc fuel) inum offset data_ c₁ t.first t.second (handle_at 0)
          t.handle (some (length data_)) small low word refl refl t.written in
      let l₃ = end_line dsk coding (suc fuel) c₂ t.second s₃ t.handle refl refl t.closed in
      let l₄ =
        readi_line dsk coding (suc fuel) inum offset (length data_) c₃ s₃ s₄ data_ small low
          (omega (arith, len, few, inside)) (e₄ ∙ ap (λ x. some (s₄, x)) back) in
      let as_before : c₃ ≡ c = ap₂ (λ x y. record c { in_txn = x; txn = y }) (sym out) (sym nil) in
      ((s₄, c₃, answers data_), rw (l₁, l₂, l₃, l₄) refl, (as_before, refl))

-- ===== src/Fs.antt =====
-- fs/fs.go: files by name in one directory, and file descriptors.
pub mod Reads
pub mod Ended
pub mod Transacted
pub mod Writes
pub mod ReadBack
pub mod Directory
pub mod Tests
use pp.Prelude.{
  ℕ, zero, suc, ◌+◌, ◌-◌, ◌*◌, Bool, true, false, not, Option, none, some, List, [], ◌∷◌, ◌++◌,
  length, ltb, leb, ◌==◌, if◌then◌else◌, ◌>>=◌,
}
use pp.Text.{Bytes, split, beq}
use pp.Text.Decimal.{format, is_digit, max_u64}
use pp.Bio.Disk.{Disk}
use pp.Jrnl.Txn.{TxnHandle, begin_transaction}
use pp.Jrnl.Close.{end_transaction, abort_transaction}
use pp.Inode.{Inode, dir, file, Coding, relse, probei, alloci}
use pp.Inode.Blocks.{readi, writei}

pub record File : Type 0 where
  pub inum : ℕ
  pub offset : ℕ

pub record Filesystem : Type 0 where
  pub rooti : ℕ
  pub fd_table : ℕ → Option File
  pub max_fd : ℕ

-- `fdTable` with one entry changed.
abbrev pub set_file : (ℕ → Option File) → ℕ → Option File → ℕ → Option File
set_file table fd entry n = if fd == n then entry else table n

abbrev pub mk_fd : Filesystem → Filesystem × ℕ
mk_fd f = (record f { max_fd = f.max_fd + 1 }, f.max_fd)

-- `strconv.ParseUint` for base 10 and 16 bits, and the value beside an error.
unfoldable pub scan16 : Bytes → ℕ → ℕ
scan16 [] n = n
scan16 (c ∷ s) n =
    let m = n * 10 + (c - b'0') in
    let rest = scan16 s m in if not (is_digit c) then 0 else if ltb 65_535 m then 65_535 else rest

unfoldable pub parse_uint16 : Bytes → ℕ
unfolding scan16
parse_uint16 [] = 0
parse_uint16 (c ∷ s) = scan16 (c ∷ s) 0

-- How the search for a name ends; a name without a number is an index out of range.
pub data Entry : Type 0 where
  missing out_of_range : Entry
  found : ℕ → Entry

unfoldable pub is_named : Bytes → List Bytes → Bool
is_named fname [] = false
is_named fname (p ∷ parts) = beq p fname

unfoldable pub number_of : List Bytes → Entry
number_of [] = out_of_range
number_of (p ∷ []) = out_of_range
number_of (p ∷ q ∷ parts) = found (parse_uint16 q)

unfoldable pub find_entry : Bytes → List Bytes → Entry
find_entry fname [] = missing
find_entry fname (e ∷ entries) =
    let parts = split b',' e in
    let rest = find_entry fname entries in if is_named fname parts then number_of parts else rest

-- The directory is text of the form "filename,inum filename,inum ".
unfoldable pub lookup_name : Bytes → Bytes → Entry
unfolding find_entry
lookup_name fname rawroot = find_entry fname (split b' ' rawroot)

abbrev pub entry_text : Bytes → ℕ → Bytes
entry_text fname inum = fname ++ b',' ∷ (format inum ++ b' ' ∷ [])

-- A new descriptor for a file, at its start.
abbrev pub opened : Filesystem → ℕ → Filesystem × ℕ
opened f inum =
    let (f', fd) = mk_fd f in
    (
      record f' { fd_table = set_file f'.fd_table fd (some (record { inum = inum; offset = 0 })) },
      fd,
    )

module _ {S : Type 0} (dsk : Disk S) (coding : Coding) (start_data : ℕ) where
  unfoldable pub mount : ℕ → S → Option (S × Filesystem)
  mount fuel s = do
    (s₁, there) ← probei dsk coding fuel 0 s
    let f : Filesystem = record { rooti = 0; fd_table = λ n. none; max_fd = 0 }
    let made = do
      (s₂, t) ← begin_transaction dsk fuel s₁
      (s₃, t', root) ← alloci dsk coding fuel dir t s₂
      (s₄, u) ← end_transaction dsk fuel t' (relse dsk coding root s₃)
      some (s₄, f)
    if there then some (s₁, f) else made

  -- A file that is not there yet is made: its number, and the error of the write is not looked at.
  unfoldable pub create : ℕ → Bytes → ℕ → ℕ → S → Option (S × ℕ)
  create fuel fname rooti offset s = do
    (s₁, t) ← begin_transaction dsk fuel s
    (s₂, t', newi) ← alloci dsk coding fuel file t s₁
    (s₃, t'', written) ←
        writei dsk coding start_data fuel t' rooti offset (entry_text fname newi.serialnum) s₂
    (s₄, u) ← end_transaction dsk fuel t'' s₃
    some (s₄, newi.serialnum)

  unfoldable pub open_entry : ℕ → Bytes → ℕ → ℕ → Entry → S → Option (S × ℕ)
  open_entry fuel fname rooti offset missing s = create fuel fname rooti offset s
  open_entry fuel fname rooti offset out_of_range s = none
  open_entry fuel fname rooti offset (found inum) s = some (s, inum)

  unfoldable pub open_file : ℕ → Bytes → Filesystem → S → Option (S × Filesystem × ℕ)
  unfolding open_entry lookup_name
  open_file fuel fname f s = do
    (s₁, rawroot) ← readi dsk coding fuel f.rooti 0 max_u64 s
    (s₂, inum) ← open_entry fuel fname f.rooti (length rawroot) (lookup_name fname rawroot) s₁
    let r = opened f inum
    some (s₂, r.0, r.1)

  -- The last result of `read_fd` and `write_fd` is `none` for an error.
  unfoldable pub read_open :
      ℕ → ℕ → ℕ → Filesystem → Option File → S → Option (S × Filesystem × Option Bytes)
  read_open fuel fd count f none s = some (s, f, none)
  read_open fuel fd count f (some fl) s = do
    (s₁, content) ← readi dsk coding fuel fl.inum fl.offset count s
    let fl' : File = record fl { offset = fl.offset + length content }
    some (s₁, record f { fd_table = set_file f.fd_table fd (some fl') }, some content)

  unfoldable pub read_fd : ℕ → ℕ → ℕ → Filesystem → S → Option (S × Filesystem × Option Bytes)
  unfolding read_open
  read_fd fuel fd count f s = read_open fuel fd count f (f.fd_table fd) s

  unfoldable pub write_result :
      ℕ → ℕ → Filesystem → File → TxnHandle → Option ℕ → S → Option (S × Filesystem × Option ℕ)
  write_result fuel fd f fl t none s = do
    (s₁, u) ← abort_transaction dsk fuel t s
    some (s₁, f, none)
  write_result fuel fd f fl t (some cnt) s = do
    (s₁, u) ← end_transaction dsk fuel t s
    let fl' : File = record fl { offset = fl.offset + cnt }
    some (s₁, record f { fd_table = set_file f.fd_table fd (some fl') }, some cnt)

  unfoldable pub write_open :
      ℕ → ℕ → Bytes → Filesystem → Option File → S → Option (S × Filesystem × Option ℕ)
  unfolding write_result
  write_open fuel fd data_ f none s = some (s, f, none)
  write_open fuel fd data_ f (some fl) s = do
    (s₁, t) ← begin_transaction dsk fuel s
    (s₂, t', cnt) ← writei dsk coding start_data fuel t fl.inum fl.offset data_ s₁
    write_result fuel fd f fl t' cnt s₂

  unfoldable pub write_fd : ℕ → ℕ → Bytes → Filesystem → S → Option (S × Filesystem × Option ℕ)
  unfolding write_open
  write_fd fuel fd data_ f s = write_open fuel fd data_ f (f.fd_table fd) s

abbrev pub close_fd : ℕ → Filesystem → Filesystem
close_fd fd f = record f { fd_table = set_file f.fd_table fd none }

-- ===== src/Cli.antt =====
-- main.go: the commands that are read from the terminal, and how the program starts as a client.
pub mod Words
pub mod Kept
pub mod Refused
pub mod Line
pub mod Session
pub mod Tests
use pp.Prelude.{
  ℕ, ◌-◌, ◌*◌, Bool, true, false, not, ◌&&◌, ◌||◌, Option, none, some, List, [], ◌∷◌, ltb, leb,
  ◌==◌, if◌then◌else◌, ◌>>=◌,
}
use pp.Prelude.Int.{ℤ, pos, negsuc}
use pp.Text.{Bytes, codes, beq, split}
use pp.Text.Decimal.{Parsed, value, syntax, range, two63, max_u64, parse_base10}
use pp.Bio.Disk.{Disk}
use pp.Jrnl.Txn.{TxnHandle, begin_transaction}
use pp.Jrnl.Close.{end_transaction, abort_transaction}
use pp.Jrnl.Setup.{init_sb}
use pp.Inode.{Coding, file, end_inode, relse, geti, free, alloci}
use pp.Inode.Blocks.{readi, writei}
use pp.Fs.{Filesystem, mount, open_file, read_fd, write_fd, close_fd}
use pp.Cli.Words.{words, parse_to, parse_int, one_word, two_words, three_words, no_words}

-- What is printed; the texts of errors are left out.
pub data Said : Type 0 where
  invalid_arguments read_error write_error already_in started not_in ended free_error nothing_said :
      Said
  opened_file : Bytes → ℕ → Said
  read_bytes inode_bytes : Bytes → Said
  wrote wrote_inode got_inode freed : ℕ → Said
  closed : ℤ → Said

-- What `runCli` keeps: `inTxn`, the transaction `t`, which is `nil` outside of one, and the file system.
pub record Cli : Type 0 where
  pub in_txn : Bool
  pub txn : Option TxnHandle
  pub fs : Filesystem

abbrev pub shown_read : Option Bytes → Said
shown_read none = read_error
shown_read (some d) = read_bytes d

abbrev pub shown_write : (ℕ → Said) → Option ℕ → Said
shown_write say none = write_error
shown_write say (some n) = say n

-- One round of the loop; `none` is a panic, `log.Fatal` or a lock that is never free.
abbrev pub Turn : Type 0 → Type 0
Turn S = Option (S × Cli × Said)

module _ {S : Type 0} where
  -- `goto badcmd`.
  abbrev pub or_bad : {A : Type 0} → Option A → Cli → S → (A → Turn S) → Turn S
  or_bad none c s go = some (s, c, invalid_arguments)
  or_bad (some a) c s go = go a

  abbrev pub if_in_txn : Cli → S → Turn S → Turn S
  if_in_txn c s go = if c.in_txn then go else some (s, c, not_in)

module _ {S : Type 0} (dsk : Disk S) (coding : Coding) where
  unfoldable pub run_open : ℕ → List Bytes → Cli → S → Turn S
  run_open fuel line c s = or_bad (one_word line) c s (λ name. do
    (s₁, f, fd) ← open_file dsk coding end_inode fuel name c.fs s
    some (s₁, record c { fs = f }, opened_file name fd))

  -- No descriptor has a negative number.
  unfoldable pub read_at : ℕ → ℤ → ℕ → Cli → S → Turn S
  read_at fuel (pos fd) count c s = do
    (s₁, f, res) ← read_fd dsk coding end_inode fuel fd count c.fs s
    some (s₁, record c { fs = f }, shown_read res)
  read_at fuel (negsuc n) count c s = some (s, c, read_error)

  unfoldable pub run_read : ℕ → List Bytes → Cli → S → Turn S
  unfolding read_at parse_int parse_to
  run_read fuel line c s = or_bad (two_words line) c s (λ w.
      or_bad (parse_int w.0) c s
        (λ fd. or_bad (parse_to max_u64 w.1) c s (λ count. read_at fuel fd count c s)))

  unfoldable pub write_at : ℕ → ℤ → Bytes → Cli → S → Turn S
  write_at fuel (pos fd) data_ c s = do
    (s₁, f, res) ← write_fd dsk coding end_inode fuel fd data_ c.fs s
    some (s₁, record c { fs = f }, shown_write wrote res)
  write_at fuel (negsuc n) data_ c s = some (s, c, write_error)

  unfoldable pub run_write : ℕ → List Bytes → Cli → S → Turn S
  unfolding write_at parse_int
  run_write fuel line c s =
      or_bad (two_words line) c s (λ w. or_bad (parse_int w.0) c s (λ fd. write_at fuel fd w.1 c s))

  abbrev pub close_at : ℤ → Filesystem → Filesystem
  close_at (pos fd) f = close_fd fd f
  close_at (negsuc n) f = f

  unfoldable pub run_close : List Bytes → Cli → S → Turn S
  unfolding parse_int
  run_close line c s = or_bad (one_word line) c s (λ a.
      or_bad (parse_int a) c s (λ fd. some (s, record c { fs = close_at fd c.fs }, closed fd)))

  unfoldable pub run_begin : ℕ → List Bytes → Cli → S → Turn S
  run_begin fuel line c s =
      let begun = (do
        (s₁, t) ← begin_transaction dsk fuel s
        some (s₁, record c { in_txn = true; txn = some t }, started)) in
      if not (no_words line)
      then some (s, c, invalid_arguments)
      else if c.in_txn
      then some (s, c, already_in)
      else begun

  unfoldable pub run_end : ℕ → Cli → S → Turn S
  run_end fuel c s = if_in_txn c s (do
    t ← c.txn
    (s₁, u) ← end_transaction dsk fuel t s
    some (s₁, record c { in_txn = false; txn = none }, ended))

  unfoldable pub run_abort : ℕ → Cli → S → Turn S
  run_abort fuel c s = if_in_txn c s (do
    t ← c.txn
    (s₁, u) ← abort_transaction dsk fuel t s
    some (s₁, record c { in_txn = false; txn = none }, ended))

  unfoldable pub run_alloci : ℕ → List Bytes → Cli → S → Turn S
  run_alloci fuel line c s =
      let made = if_in_txn c s (do
        t ← c.txn
        (s₁, t', i) ← alloci dsk coding fuel file t s
        some (relse dsk coding i s₁, record c { txn = some t' }, got_inode i.serialnum)) in
      if not (no_words line) then some (s, c, invalid_arguments) else made

  unfoldable pub free_at : ℕ → ℕ → Cli → S → Turn S
  free_at fuel inum c s = do
    t ← c.txn
    (s₁, i) ← geti dsk coding fuel inum s
    (s₂, t', i', done) ← free dsk coding fuel i t s₁
    some (s₂, record c { txn = some t' }, if done then freed inum else free_error)

  unfoldable pub run_freei : ℕ → List Bytes → Cli → S → Turn S
  unfolding free_at parse_to
  run_freei fuel line c s =
      or_bad (one_word line) c s
        (λ a. if_in_txn c s (or_bad (parse_to 65_535 a) c s (λ inum. free_at fuel inum c s)))

  unfoldable pub readi_at : ℕ → ℕ → ℕ → ℕ → Cli → S → Turn S
  readi_at fuel inum offset count c s = do
    (s₁, res) ← readi dsk coding fuel inum offset count s
    some (s₁, c, inode_bytes res)

  unfoldable pub run_readi : ℕ → List Bytes → Cli → S → Turn S
  unfolding readi_at parse_to
  run_readi fuel line c s = or_bad (three_words line) c s (λ w.
      or_bad (parse_to 65_535 w.0) c s (λ inum. or_bad (parse_to max_u64 w.1) c s (λ offset.
        or_bad (parse_to max_u64 w.2) c s (λ count. readi_at fuel inum offset count c s))))

  unfoldable pub writei_at : ℕ → ℕ → ℕ → Bytes → Cli → S → Turn S
  writei_at fuel inum offset data_ c s = do
    t ← c.txn
    (s₁, t', res) ← writei dsk coding end_inode fuel t inum offset data_ s
    some (s₁, record c { txn = some t' }, shown_write wrote_inode res)

  unfoldable pub run_writei : ℕ → List Bytes → Cli → S → Turn S
  unfolding writei_at parse_to
  run_writei fuel line c s = or_bad (three_words line) c s (λ w. if_in_txn c s (
      or_bad (parse_to 65_535 w.0) c s
        (λ inum. or_bad (parse_to max_u64 w.1) c s (λ offset. writei_at fuel inum offset w.2 c s))))

  -- The `switch` on the first word.
  unfoldable pub command : ℕ → Bytes → List Bytes → Cli → S → Turn S
  unfolding run_open run_read run_write run_close run_begin run_end run_abort run_alloci run_freei
      run_readi run_writei
  command fuel name line c s =
      if beq name (codes "open")
      then run_open fuel line c s
      else if beq name (codes "read")
      then run_read fuel line c s
      else if beq name (codes "write")
      then run_write fuel line c s
      else if beq name (codes "close")
      then run_close line c s
      else if beq name (codes "begin")
      then run_begin fuel line c s
      else if beq name (codes "end")
      then run_end fuel c s
      else if beq name (codes "abort")
      then run_abort fuel c s
      else if beq name (codes "alloci")
      then run_alloci fuel line c s
      else if beq name (codes "freei")
      then run_freei fuel line c s
      else if beq name (codes "readi")
      then run_readi fuel line c s
      else if beq name (codes "writei")
      then run_writei fuel line c s
      else some (s, c, nothing_said)

  unfoldable pub run_words : ℕ → List Bytes → Cli → S → Turn S
  unfolding command
  run_words fuel [] c s = none
  run_words fuel (name ∷ args) c s = command fuel name (name ∷ args) c s

  unfoldable pub run_line : ℕ → Bytes → Cli → S → Turn S
  unfolding run_words
  run_line fuel line c s = run_words fuel (words line) c s

  -- The lines that are read, one after the other, and what is printed for each.
  unfoldable pub run_lines : ℕ → List Bytes → Cli → S → Option (S × Cli × List Said)
  unfolding run_line
  run_lines fuel [] c s = some (s, c, [])
  run_lines fuel (line ∷ lines) c s = do
    (s₁, c₁, said) ← run_line fuel line c s
    (s₂, c₂, more) ← run_lines fuel lines c₁ s₁
    some (s₂, c₂, said ∷ more)

  -- The start of a client, up to the loop.
  unfoldable pub start_client : ℕ → S → Option (S × Cli)
  start_client fuel s = do
    (s₁, u) ← init_sb dsk fuel s
    (s₂, f) ← mount dsk coding end_inode fuel s₁
    some (s₂, record { in_txn = false; txn = none; fs = f })

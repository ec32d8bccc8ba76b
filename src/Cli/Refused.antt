-- ===== src/Cli/Refused.antt =====
-- main.go: a command that is refused changes nothing, and there is a transaction exactly while `inTxn` is set.
use pp.Prelude.{ℕ, ◌≡◌, refl, sym, Bool, true, false, not, none, some, List, [], ◌∷◌, if◌then◌else◌}
use pp.Prelude.Int.{ℤ, pos, negsuc}
use pp.Text.{Bytes, codes, beq}
use pp.Text.Decimal.{max_u64}
use pp.Bio.Disk.{Disk}
use pp.Jrnl.Txn.{TxnHandle}
use pp.Jrnl.Close.{end_transaction, abort_transaction}
use pp.Inode.{Coding, end_inode, file, relse, geti, free, alloci}
use pp.Inode.Blocks.{writei}
use pp.Cli.Words.{words, parse_to, parse_int, one_word, two_words, three_words, no_words}
use pp.Cli.{
  Said, invalid_arguments, ended, got_inode, nothing_said, free_error, freed, already_in, Cli,
  shown_read, shown_write, wrote, wrote_inode, run_open, read_at, run_read, write_at, run_write,
  run_close, run_begin, run_end, run_abort, run_alloci, free_at, run_freei, readi_at, run_readi,
  writei_at, run_writei, command, run_words, run_line,
}
use pp.Cli.Kept.{
  IsValid, refuses, Kept, Keeps, Holds-bind, Holds-if, same-Kept, or_bad-Keeps, if_in_txn-Keeps,
  some-Keeps, switch-Keeps, shown_read-refuses, shown_write-refuses,
}

module _ {S : Type 0} (dsk : Disk S) (coding : Coding) where
  read_at-Keeps :
      (fuel : ℕ) (fd : ℤ) (count : ℕ) (c : Cli) (s : S)
      → IsValid c
      → Keeps c s (read_at dsk coding fuel fd count c s)
  unfolding read_at
  read_at-Keeps fuel (pos fd) count c s v = Holds-bind (Kept c s) _ _ (λ (s₁, f, res).
      some-Keeps c (record c { fs = f }) s s₁ (shown_read res) v (shown_read-refuses res))
  read_at-Keeps fuel (negsuc n) count c s v = same-Kept c s _ v

  write_at-Keeps :
      (fuel : ℕ) (fd : ℤ) (data_ : Bytes) (c : Cli) (s : S)
      → IsValid c
      → Keeps c s (write_at dsk coding fuel fd data_ c s)
  unfolding write_at
  write_at-Keeps fuel (pos fd) data_ c s v = Holds-bind (Kept c s) _ _ (λ (s₁, f, res).
      some-Keeps c (record c { fs = f }) s s₁ (shown_write wrote res) v
        (shown_write-refuses wrote res (λ n. refl)))
  write_at-Keeps fuel (negsuc n) data_ c s v = same-Kept c s _ v

  run_open-Keeps :
      (fuel : ℕ) (line : List Bytes) (c : Cli) (s : S)
      → IsValid c
      → Keeps c s (run_open dsk coding fuel line c s)
  unfolding run_open
  run_open-Keeps fuel line c s v = or_bad-Keeps (one_word line) c s _ v (λ name.
      Holds-bind (Kept c s) _ _ (λ (s₁, f, fd). some-Keeps c (record c { fs = f }) s s₁ _ v refl))

  run_read-Keeps :
      (fuel : ℕ) (line : List Bytes) (c : Cli) (s : S)
      → IsValid c
      → Keeps c s (run_read dsk coding fuel line c s)
  unfolding run_read
  run_read-Keeps fuel line c s v = or_bad-Keeps (two_words line) c s _ v (λ w.
      or_bad-Keeps (parse_int w.0) c s _ v (λ fd.
        or_bad-Keeps (parse_to max_u64 w.1) c s _ v (λ count. read_at-Keeps fuel fd count c s v)))

  run_write-Keeps :
      (fuel : ℕ) (line : List Bytes) (c : Cli) (s : S)
      → IsValid c
      → Keeps c s (run_write dsk coding fuel line c s)
  unfolding run_write
  run_write-Keeps fuel line c s v =
      or_bad-Keeps (two_words line) c s _ v
        (λ w. or_bad-Keeps (parse_int w.0) c s _ v (λ fd. write_at-Keeps fuel fd w.1 c s v))

  run_close-Keeps :
      (line : List Bytes) (c : Cli) (s : S) → IsValid c → Keeps c s (run_close dsk coding line c s)
  unfolding run_close
  run_close-Keeps line c s v = or_bad-Keeps (one_word line) c s _ v (λ a.
      or_bad-Keeps (parse_int a) c s _ v (λ fd. some-Keeps c (record c { fs = _ }) s s _ v refl))

  run_begin-Keeps :
      (fuel : ℕ) (line : List Bytes) (c : Cli) (s : S)
      → IsValid c
      → Keeps c s (run_begin dsk coding fuel line c s)
  unfolding run_begin
  run_begin-Keeps fuel line c s v =
      Holds-if (Kept c s) (not (no_words line)) _ _ (λ _. same-Kept c s invalid_arguments v)
        (λ _.
          Holds-if (Kept c s) c.in_txn _ _ (λ _. same-Kept c s already_in v)
            (λ _. Holds-bind (Kept c s) _ _ (λ (s₁, t).
              some-Keeps c (record c { in_txn = true; txn = some t }) s s₁ _ refl refl)))

  run_end-Keeps : (fuel : ℕ) (c : Cli) (s : S) → IsValid c → Keeps c s (run_end dsk coding fuel c s)
  unfolding run_end
  run_end-Keeps fuel c s v = if_in_txn-Keeps c s _ v (λ _. Holds-bind (Kept c s) c.txn _ (λ t.
      Holds-bind (Kept c s) (end_transaction dsk fuel t s) _
        (λ (s₁, u). some-Keeps c (record c { in_txn = false; txn = none }) s s₁ ended refl refl)))

  run_abort-Keeps :
      (fuel : ℕ) (c : Cli) (s : S) → IsValid c → Keeps c s (run_abort dsk coding fuel c s)
  unfolding run_abort
  run_abort-Keeps fuel c s v = if_in_txn-Keeps c s _ v (λ _. Holds-bind (Kept c s) c.txn _ (λ t.
      Holds-bind (Kept c s) (abort_transaction dsk fuel t s) _
        (λ (s₁, u). some-Keeps c (record c { in_txn = false; txn = none }) s s₁ ended refl refl)))

  -- Inside a transaction the handle that an operation leaves is kept.
  with_handle-Keeps :
      (c : Cli) (s s' : S) (t : TxnHandle) (said : Said)
      → c.in_txn ≡ true
      → refuses said ≡ false
      → Keeps c s (some (s', record c { txn = some t }, said))
  with_handle-Keeps c s s' t said open_ q =
      some-Keeps c (record c { txn = some t }) s s' said (sym open_) q

  run_alloci-Keeps :
      (fuel : ℕ) (line : List Bytes) (c : Cli) (s : S)
      → IsValid c
      → Keeps c s (run_alloci dsk coding fuel line c s)
  unfolding run_alloci
  run_alloci-Keeps fuel line c s v =
      Holds-if (Kept c s) (not (no_words line)) _ _ (λ _. same-Kept c s invalid_arguments v)
        (λ _. if_in_txn-Keeps c s _ v (λ h. Holds-bind (Kept c s) c.txn _ (λ t.
          Holds-bind (Kept c s) (alloci dsk coding fuel file t s) _ (λ (s₁, t', i).
            with_handle-Keeps c s (relse dsk coding i s₁) t' (got_inode i.serialnum) h refl))))

  free_at-Keeps :
      (fuel inum : ℕ) (c : Cli) (s : S)
      → c.in_txn ≡ true
      → Keeps c s (free_at dsk coding fuel inum c s)
  unfolding free_at
  free_at-Keeps fuel inum c s h = Holds-bind (Kept c s) c.txn _ (λ t.
      Holds-bind (Kept c s) (geti dsk coding fuel inum s) _ (λ (s₁, i).
        Holds-bind (Kept c s) (free dsk coding fuel i t s₁) _ (λ (s₂, t', i', done).
          with_handle-Keeps c s s₂ t' (if done then freed inum else free_error) h (said done))))
    where
      said : (done : Bool) → refuses (if done then freed inum else free_error) ≡ false
      said true = refl
      said false = refl

  run_freei-Keeps :
      (fuel : ℕ) (line : List Bytes) (c : Cli) (s : S)
      → IsValid c
      → Keeps c s (run_freei dsk coding fuel line c s)
  unfolding run_freei
  run_freei-Keeps fuel line c s v = or_bad-Keeps (one_word line) c s _ v (λ a.
      if_in_txn-Keeps c s _ v
        (λ h. or_bad-Keeps (parse_to 65_535 a) c s _ v (λ inum. free_at-Keeps fuel inum c s h)))

  run_readi-Keeps :
      (fuel : ℕ) (line : List Bytes) (c : Cli) (s : S)
      → IsValid c
      → Keeps c s (run_readi dsk coding fuel line c s)
  unfolding run_readi readi_at
  run_readi-Keeps fuel line c s v = or_bad-Keeps (three_words line) c s _ v (λ w.
      or_bad-Keeps (parse_to 65_535 w.0) c s _ v (λ inum.
        or_bad-Keeps (parse_to max_u64 w.1) c s _ v (λ offset.
          or_bad-Keeps (parse_to max_u64 w.2) c s _ v
            (λ count. Holds-bind (Kept c s) _ _ (λ (s₁, res). some-Keeps c c s s₁ _ v refl)))))

  run_writei-Keeps :
      (fuel : ℕ) (line : List Bytes) (c : Cli) (s : S)
      → IsValid c
      → Keeps c s (run_writei dsk coding fuel line c s)
  unfolding run_writei writei_at
  run_writei-Keeps fuel line c s v = or_bad-Keeps (three_words line) c s _ v (λ w.
      if_in_txn-Keeps c s _ v (λ h. or_bad-Keeps (parse_to 65_535 w.0) c s _ v (λ inum.
        or_bad-Keeps (parse_to max_u64 w.1) c s _ v (λ offset. Holds-bind (Kept c s) c.txn _ (λ t.
          Holds-bind (Kept c s) (writei dsk coding end_inode fuel t inum offset w.2 s) _
            (λ (s₁, t', res).
              with_handle-Keeps c s s₁ t' (shown_write wrote_inode res) h
                (shown_write-refuses wrote_inode res (λ n. refl))))))))

  command-Keeps :
      (fuel : ℕ) (name : Bytes) (line : List Bytes) (c : Cli) (s : S)
      → IsValid c
      → Keeps c s (command dsk coding fuel name line c s)
  unfolding command
  command-Keeps fuel name line c s v =
      switch-Keeps c s (beq name (codes "open")) (run_open-Keeps fuel line c s v) (
        switch-Keeps c s (beq name (codes "read")) (run_read-Keeps fuel line c s v) (
          switch-Keeps c s (beq name (codes "write")) (run_write-Keeps fuel line c s v) (
            switch-Keeps c s (beq name (codes "close")) (run_close-Keeps line c s v) (
              switch-Keeps c s (beq name (codes "begin")) (run_begin-Keeps fuel line c s v) (
                switch-Keeps c s (beq name (codes "end")) (run_end-Keeps fuel c s v) (
                  switch-Keeps c s (beq name (codes "abort")) (run_abort-Keeps fuel c s v) (
                    switch-Keeps c s (beq name (codes "alloci")) (run_alloci-Keeps fuel line c s v)
                      (switch-Keeps c s (beq name (codes "freei")) (run_freei-Keeps fuel line c s v)
                        (switch-Keeps c s (beq name (codes "readi"))
                          (run_readi-Keeps fuel line c s v)
                          (switch-Keeps c s (beq name (codes "writei"))
                            (run_writei-Keeps fuel line c s v)
                            (same-Kept c s nothing_said v)))))))))))

  run_words-Keeps :
      (fuel : ℕ) (line : List Bytes) (c : Cli) (s : S)
      → IsValid c
      → Keeps c s (run_words dsk coding fuel line c s)
  unfolding run_words
  run_words-Keeps fuel [] c s v r e = absurd cc
  run_words-Keeps fuel (name ∷ args) c s v r e = command-Keeps fuel name (name ∷ args) c s v r e

  -- From a state in which there is a transaction exactly while `inTxn` is set, any line leaves such a state; and one that
  -- is answered with an error of the arguments, or that it stands inside or outside of a transaction, changes neither
  -- the state nor the disk.
  pub run_line-Kept :
      (fuel : ℕ) (line : Bytes) (c : Cli) (s : S) (r : S × Cli × Said)
      → IsValid c
      → run_line dsk coding fuel line c s ≡ some r
      → Kept c s r
  unfolding run_line
  run_line-Kept fuel line c s r v e = run_words-Keeps fuel (words line) c s v r e

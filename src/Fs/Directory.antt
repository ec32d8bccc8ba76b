-- ===== src/Fs/Directory.antt =====
-- fs/fs.go: the directory's text, and the search for a name in it.
use pp.Prelude.{
  ℕ, zero, suc, ◌+◌, ◌-◌, ◌*◌, ◌/◌, ◌%◌, ◌^◌, ◌≤◌, ◌<◌, ◌≡◌, ◌≢◌, refl, sym, ap, ap₂, ◌∙◌, List, [],
  ◌∷◌, ◌++◌, append_assoc, ltb, ltb→lt, if◌then◌else◌, arith, Bool-cases, inl, inr,
}
use pp.Text.{Bytes, Lacks, split, split-append, split-Lacks, Lacks-append, beq, beq-ne}
use pp.Text.Decimal.{format, digits, is_digit}
use pp.Text.Parse.{tenth_lt, digits-head}
use pp.Text.Print.{format-IsDigits, IsDigits-Lacks}
use pp.Fs.{
  scan16, parse_uint16, Entry, missing, found, is_named, number_of, find_entry, lookup_name,
  entry_text,
}

scan16_digit :
    (n d : ℕ) (out : Bytes)
    → d < 10
    → n * 10 + d ≤ 65_535
    → scan16 ((b'0' + d) ∷ out) n ≡ scan16 out (n * 10 + d)
unfolding scan16 is_digit
scan16_digit n d out h fits = let e : b'0' + d - b'0' ≡ d = omega arith in rw e (ground arith)

scan16-digits :
    (fuel n : ℕ) (out : Bytes)
    → n < 10 ^ fuel
    → n ≤ 65_535
    → scan16 (digits fuel n out) 0 ≡ scan16 out n
unfolding digits
scan16-digits zero n out h fits = let e : n ≡ 0 = omega arith in rw e refl
scan16-digits (suc fuel) n out h fits = elim (Bool-cases (ltb n 10)) [
  | inl small ↦
      let lt = ltb→lt _ _ small in
      let e : 0 * 10 + n % 10 ≡ n = omega arith in
      rw small (scan16_digit 0 (n % 10) out (omega arith) (omega arith) ∙ ap (scan16 out) e)
  | inr large ↦
      let e : n / 10 * 10 + n % 10 ≡ n = omega arith in
      rw large (
        scan16-digits fuel (n / 10) ((b'0' + n % 10) ∷ out) (tenth_lt fuel n h) (omega arith)
        ∙ scan16_digit (n / 10) (n % 10) out (omega arith) (omega arith)
        ∙ ap (scan16 out) e)
]

scan16-nil : (n : ℕ) → scan16 [] n ≡ n
unfolding scan16
scan16-nil n = refl

parse_uint16-zero : parse_uint16 (format 0) ≡ 0
unfolding parse_uint16 format digits scan16 is_digit
parse_uint16-zero = refl

-- A number of 16 bits is read as it was printed.
parse_uint16-format : (n : ℕ) → n ≤ 65_535 → parse_uint16 (format n) ≡ n
unfolding parse_uint16 format
parse_uint16-format zero h = parse_uint16-zero
parse_uint16-format (suc n) h =
    let (c, r, shape, big) = digits-head 20 (suc n) [] (omega arith) (omega arith) in
    let scanned : scan16 (c ∷ r) 0 ≡ scan16 [] (suc n) =
      ap (λ s. scan16 s 0) (sym shape) ∙ scan16-digits 20 (suc n) [] (omega arith) h in
    rw shape (scanned ∙ scan16-nil (suc n))

-- The text that one entry after the other leaves.
abbrev pub dir_text : List (Bytes × ℕ) → Bytes
dir_text [] = []
dir_text ((name, inum) ∷ l) = entry_text name inum ++ dir_text l

-- Names without a blank and a comma, with numbers of 16 bits.
abbrev pub Plain : List (Bytes × ℕ) → Type 0
Plain [] = Unit {0}
Plain ((name, inum) ∷ l) = Lacks b' ' name × Lacks b',' name × (inum ≤ 65_535) × Plain l

-- The first entry with the name.
abbrev pub first_named : Bytes → List (Bytes × ℕ) → Entry
first_named fname [] = missing
first_named fname ((name, inum) ∷ l) = if beq name fname then found inum else first_named fname l

entry-split :
    (name : Bytes) (inum : ℕ)
    → Lacks b',' name
    → split b',' (name ++ b',' ∷ format inum) ≡ name ∷ format inum ∷ []
entry-split name inum h =
    split-append b',' name (format inum) h
    ∙ ap (λ x. name ∷ x)
        (split-Lacks b',' (format inum)
          (IsDigits-Lacks b',' (format inum) (inl (omega arith)) (format-IsDigits inum)))

-- An entry ends at the next blank.
entry-append :
    (name : Bytes) (inum : ℕ) (rest : Bytes)
    → entry_text name inum ++ rest ≡ (name ++ b',' ∷ format inum) ++ b' ' ∷ rest
entry-append name inum rest =
    let f = format inum in
    append_assoc name (b',' ∷ (f ++ b' ' ∷ [])) rest
    ∙ ap (λ x. name ++ b',' ∷ x) (append_assoc f (b' ' ∷ []) rest)
    ∙ sym (append_assoc name (b',' ∷ f) (b' ' ∷ rest))

find_entry-cons :
    (fname e name number : Bytes) (entries : List Bytes)
    → split b',' e ≡ name ∷ number ∷ []
    → find_entry fname (e ∷ entries)
      ≡ (if beq name fname then found (parse_uint16 number) else find_entry fname entries)
unfolding find_entry is_named number_of
find_entry-cons fname e name number entries h = rw h refl

-- What is behind the last blank.
find_entry-last : (fname : Bytes) → fname ≢ [] → find_entry fname (split b' ' []) ≡ missing
unfolding find_entry is_named split
find_entry-last fname h = rw (beq-ne [] fname (λ e. h (sym e))) refl

-- The search for a name that is not empty in the text of a directory whose names have no blank and no comma finds
-- the first entry of the name, and no entry where there is none.
pub lookup_name-first_named :
    (fname : Bytes) (l : List (Bytes × ℕ))
    → fname ≢ []
    → Plain l
    → lookup_name fname (dir_text l) ≡ first_named fname l
unfolding lookup_name
lookup_name-first_named fname [] h plain = find_entry-last fname h
lookup_name-first_named fname ((name, inum) ∷ l) h (blank, comma, small, plain) =
    let e = name ++ b',' ∷ format inum in
    let digits_only : Lacks b' ' (format inum) =
      IsDigits-Lacks b' ' (format inum) (inl (omega arith)) (format-IsDigits inum) in
    let lacks : Lacks b' ' e =
      Lacks-append b' ' name (b',' ∷ format inum) blank ((omega arith), digits_only) in
    let parts : split b' ' (entry_text name inum ++ dir_text l) ≡ e ∷ split b' ' (dir_text l) =
      ap (split b' ') (entry-append name inum (dir_text l))
      ∙ split-append b' ' e (dir_text l) lacks in
    ap (find_entry fname) parts
    ∙ find_entry-cons fname e name (format inum) (split b' ' (dir_text l))
        (entry-split name inum comma)
    ∙ ap₂ (λ n r. if beq name fname then found n else r) (parse_uint16-format inum small)
        (lookup_name-first_named fname l h plain)

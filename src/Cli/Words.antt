-- ===== src/Cli/Words.antt =====
-- main.go: the words of a line, and the numbers in them.
use pp.Prelude.{
  ℕ, ◌-◌, Bool, true, false, Option, none, some, List, [], ◌∷◌, leb, ◌==◌, if◌then◌else◌, ◌>>=◌,
}
use pp.Prelude.Int.{ℤ, pos, negsuc}
use pp.Text.{Bytes, split}
use pp.Text.Decimal.{Parsed, value, syntax, range, two63, parse_base10}

-- `strings.Replace` of every newline by nothing.
unfoldable pub without_newlines : Bytes → Bytes
without_newlines [] = []
without_newlines (c ∷ s) = let rest = without_newlines s in if c == b'\n' then rest else c ∷ rest

abbrev pub words : Bytes → List Bytes
words line = split b' ' (without_newlines line)

-- The number, where there is no error.
abbrev pub number_in : ℕ → Parsed → Option ℕ
number_in top (value n) = if leb n top then some n else none
number_in top syntax = none
number_in top range = none

-- `strconv.ParseUint` for base 10, where `top` is the largest number.
unfoldable pub parse_to : ℕ → Bytes → Option ℕ
parse_to top s = number_in top (parse_base10 s)

abbrev pub negated : ℕ → ℤ
negated n = if n == 0 then pos 0 else negsuc (n - 1)

-- `strconv.ParseInt` for base 10 and 64 bits.
unfoldable pub parse_int : Bytes → Option ℤ
unfolding parse_to
parse_int [] = none
parse_int (c ∷ s) =
    if c == b'-'
    then (parse_to two63 s >>= λ n. some (negated n))
    else (parse_to (two63 - 1) (if c == b'+' then s else c ∷ s) >>= λ n. some (pos n))

-- The words of a command with one, two and three arguments.
abbrev pub one_word : List Bytes → Option Bytes
one_word (c ∷ a ∷ []) = some a
one_word _ = none

abbrev pub two_words : List Bytes → Option (Bytes × Bytes)
two_words (c ∷ a ∷ b ∷ []) = some (a, b)
two_words _ = none

abbrev pub three_words : List Bytes → Option (Bytes × Bytes × Bytes)
three_words (c ∷ a ∷ b ∷ e ∷ []) = some (a, b, e)
three_words _ = none

abbrev pub no_words : List Bytes → Bool
no_words (c ∷ []) = true
no_words _ = false

-- ===== src/Text/Decimal.antt =====
-- Go's `strconv.ParseUint` for bases 0 and 10, `strconv.Atoi`, and `%d` of `fmt`.
use pp.Prelude.{
  ℕ, zero, suc, ◌+◌, ◌-◌, ◌*◌, ◌/◌, ◌%◌, ◌^◌, Bool, true, false, not, ◌&&◌, ◌||◌, [], ◌∷◌, ltb, leb,
  ◌==◌, if◌then◌else◌,
}
use pp.Prelude.Int.{ℤ, pos, negsuc}
use pp.Text.{Bytes}

abbrev pub two64 : ℕ
two64 = 2 ^ 64

abbrev pub max_u64 : ℕ
max_u64 = two64 - 1

-- `n` printed in front of `out`, in at most `fuel` digits.
unfoldable pub digits : ℕ → ℕ → Bytes → Bytes
digits zero n out = out
digits (suc fuel) n out =
    let out' = (b'0' + n % 10) ∷ out in
    let rest = digits fuel (n / 10) out' in if ltb n 10 then out' else rest

-- `%d` of a number of 64 bits, which has at most 20 digits.
unfoldable pub format : ℕ → Bytes
format n = digits 20 n []

abbrev lower : ℕ → ℕ
lower c = if leb b'A' c && leb c b'Z' then c + 32 else c

unfoldable pub is_digit : ℕ → Bool
is_digit c = leb b'0' c && leb c b'9'

unfoldable pub is_letter : ℕ → Bool
is_letter c = leb b'a' (lower c) && leb (lower c) b'z'

-- A parser's error carries the value that Go returns beside it: 0, or the largest number.
pub data Parsed : Type 0 where
  value : ℕ → Parsed
  syntax : Parsed
  range : Parsed

unfoldable pub digit_value : ℕ → ℕ
unfolding is_digit
digit_value c = if is_digit c then c - b'0' else lower c - b'a' + 10

-- The loop of `ParseUint`. An underscore is passed over in base 0.
unfoldable pub scan : ℕ → Bool → Bytes → ℕ → Parsed
unfolding is_digit is_letter digit_value
scan base base0 [] n = value n
scan base base0 (c ∷ s) n =
    let d = digit_value c in
    let m = n * base + d in
    let skip = scan base base0 s n in
    let rest = scan base base0 s m in
    if (c == b'_') && base0
    then skip
    else if not (is_digit c || is_letter c)
    then syntax
    else if leb base d
    then syntax
    else if ltb max_u64 m
    then range
    else rest

-- What `underscoreOK` last saw.
pub data Saw : Type 0 where
  begin digit underscore other : Saw

unfoldable pub is_hex_digit : ℕ → Bool
is_hex_digit c = leb b'a' (lower c) && leb (lower c) b'f'

unfoldable pub after_digit : Saw → Bool
after_digit digit = true
after_digit _ = false

unfoldable pub after_underscore : Saw → Bool
after_underscore underscore = true
after_underscore _ = false

unfoldable pub underscores : Bool → Saw → Bytes → Bool
unfolding is_digit is_hex_digit after_digit after_underscore
underscores hex saw [] = not (after_underscore saw)
underscores hex saw (c ∷ s) =
    let on_digit = underscores hex digit s in
    let on_underscore = underscores hex underscore s in
    let on_other = underscores hex other s in
    if is_digit c || (hex && is_hex_digit c)
    then on_digit
    else if c == b'_'
    then after_digit saw && on_underscore
    else not (after_underscore saw) && on_other

unfoldable pub has_underscore : Bytes → Bool
has_underscore [] = false
has_underscore (c ∷ s) = (c == b'_') || has_underscore s

unfoldable pub underscore_ok : Bytes → Bool
unfolding underscores
underscore_ok (z ∷ x ∷ s) =
    if (z == b'0') && ((lower x == b'b') || (lower x == b'o') || (lower x == b'x'))
    then underscores (lower x == b'x') digit s
    else underscores false begin (z ∷ x ∷ s)
underscore_ok s = underscores false begin s

unfoldable pub check_underscores : Bytes → Parsed → Parsed
unfolding underscore_ok has_underscore
check_underscores s (value n) =
    if has_underscore s && not (underscore_ok s) then syntax else value n
check_underscores s syntax = syntax
check_underscores s range = range

-- Behind a leading 0: a prefix for the base, with at least one more byte, or base 8.
unfoldable pub after_zero : Bytes → Parsed
unfolding scan
after_zero (x ∷ c ∷ s) =
    if lower x == b'b'
    then scan 2 true (c ∷ s) 0
    else if lower x == b'o'
    then scan 8 true (c ∷ s) 0
    else if lower x == b'x'
    then scan 16 true (c ∷ s) 0
    else scan 8 true (x ∷ c ∷ s) 0
after_zero s = scan 8 true s 0

unfoldable pub parse_base0 : Bytes → Parsed
unfolding after_zero check_underscores scan
parse_base0 [] = syntax
parse_base0 (c ∷ s) =
    check_underscores (c ∷ s) (if c == b'0' then after_zero s else scan 10 true (c ∷ s) 0)

unfoldable pub parse_base10 : Bytes → Parsed
unfolding scan
parse_base10 [] = syntax
parse_base10 (c ∷ s) = scan 10 false (c ∷ s) 0

-- The value that is used where the error is dropped.
abbrev pub value_of : Parsed → ℕ
value_of (value n) = n
value_of syntax = 0
value_of range = max_u64

-- `strconv.ParseUint(s, 0, 64)` and `strconv.ParseUint(s, 10, 64)`, the error dropped.
unfoldable pub parse_uint0 : Bytes → ℕ
unfolding parse_base0
parse_uint0 s = value_of (parse_base0 s)

unfoldable pub parse_uint : Bytes → ℕ
unfolding parse_base10
parse_uint s = value_of (parse_base10 s)

abbrev pub two63 : ℕ
two63 = 2 ^ 63

-- A number without its sign, as an `int`: what is out of range is the bound.
unfoldable pub signed : Bool → Parsed → ℤ
signed minus syntax = pos 0
signed false range = pos (two63 - 1)
signed true range = negsuc (two63 - 1)
signed false (value n) = if leb two63 n then pos (two63 - 1) else pos n
signed true (value n) =
    if ltb two63 n then negsuc (two63 - 1) else if n == 0 then pos 0 else negsuc (n - 1)

-- `strconv.Atoi`, the error dropped.
unfoldable pub atoi : Bytes → ℤ
unfolding signed parse_base10
atoi [] = pos 0
atoi (c ∷ s) =
    if c == b'-'
    then signed true (parse_base10 s)
    else if c == b'+'
    then signed false (parse_base10 s)
    else signed false (parse_base10 (c ∷ s))

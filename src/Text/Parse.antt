-- ===== src/Text/Parse.antt =====
-- Parsing what was printed gives the number back.
use pp.Prelude.{
  ℕ, zero, suc, ◌+◌, ◌*◌, ◌/◌, ◌%◌, ◌^◌, ◌≤◌, ◌<◌, ◌≡◌, refl, Bool, true, false, [], ◌∷◌, ltb, ◌==◌,
  arith, Bool-cases, inl, inr, ltb→lt, ltb→le, ap, ◌∙◌,
}
use native.Mathlib.Nat.{pow-suc}
use pp.Text.{Bytes}
use pp.Text.Decimal.{
  digits, format, scan, value, max_u64, parse_base0, parse_base10, parse_uint0, parse_uint,
  has_underscore, check_underscores,
}
use pp.Text.Print.{IsDigits, format-IsDigits}

scan_digit :
    (b : Bool) (n d : ℕ) (out : Bytes)
    → d < 10
    → n * 10 + d ≤ max_u64
    → scan 10 b ((b'0' + d) ∷ out) n ≡ scan 10 b out (n * 10 + d)
unfolding scan
scan_digit b n d out h fits = ground arith

pub tenth_lt : (fuel n : ℕ) → n < 10 ^ suc fuel → n / 10 < 10 ^ fuel
tenth_lt fuel n h = let p = pow-suc 10 fuel in omega arith

scan-digits :
    (b : Bool) (fuel n : ℕ) (out : Bytes)
    → n < 10 ^ fuel
    → n ≤ max_u64
    → scan 10 b (digits fuel n out) 0 ≡ scan 10 b out n
unfolding digits
scan-digits b zero n out h fits = let e : n ≡ 0 = omega arith in rw e
scan-digits b (suc fuel) n out h fits = elim (Bool-cases (ltb n 10)) [
  | inl small ↦
      let lt = ltb→lt _ _ small in
      let e : 0 * 10 + n % 10 ≡ n = omega arith in
      rw small (scan_digit b 0 (n % 10) out (omega arith) (omega arith) ∙ ap (scan 10 b out) e)
  | inr large ↦
      let e : n / 10 * 10 + n % 10 ≡ n = omega arith in
      rw large (
        scan-digits b fuel (n / 10) ((b'0' + n % 10) ∷ out) (tenth_lt fuel n h) (omega arith)
        ∙ scan_digit b (n / 10) (n % 10) out (omega arith) (omega arith)
        ∙ ap (scan 10 b out) e)
]

-- The first digit of a positive number is not 0.
pub digits-head :
    (fuel n : ℕ) (out : Bytes)
    → n < 10 ^ fuel
    → 0 < n
    → (c : ℕ) × (r : Bytes) × (digits fuel n out ≡ c ∷ r) × (b'0' < c)
unfolding digits
digits-head zero n out h pos_n = absurd (omega arith)
digits-head (suc fuel) n out h pos_n = elim (Bool-cases (ltb n 10)) [
  | inl small ↦ let lt = ltb→lt _ _ small in (b'0' + n % 10, out, rw small, omega arith)
  | inr large ↦
      let le = ltb→le _ _ large in
      rw large (digits-head fuel (n / 10) ((b'0' + n % 10) ∷ out) (tenth_lt fuel n h) (omega arith))
]

IsDigits-underscore : (s : Bytes) → IsDigits s → has_underscore s ≡ false
unfolding has_underscore
IsDigits-underscore [] h = refl
IsDigits-underscore (c ∷ s) h = ground (arith, IsDigits-underscore s h.2)

check_underscores-digits :
    (s : Bytes) (n : ℕ) → IsDigits s → check_underscores s (value n) ≡ value n
unfolding check_underscores
check_underscores-digits s n h = rw (IsDigits-underscore s h)

parse_base0-format : (n : ℕ) → n ≤ max_u64 → 0 < n → parse_base0 (format n) ≡ value n
unfolding parse_base0 format
parse_base0-format n h pos_n =
    let (c, r, shape, big) = digits-head 20 n [] (omega arith) pos_n in
    let nonzero : (c == b'0') ≡ false = ground arith in
    let ds : IsDigits (c ∷ r) = rw shape at (format-IsDigits n) in
    let parsed : scan 10 true (c ∷ r) 0 ≡ value n =
      rw shape at (scan-digits true 20 n [] (omega arith) h) in
    rw (shape, nonzero, parsed) (check_underscores-digits (c ∷ r) n ds)

pub parse_base10-format : (n : ℕ) → n ≤ max_u64 → 0 < n → parse_base10 (format n) ≡ value n
unfolding parse_base10 format
parse_base10-format n h pos_n =
    let (c, r, shape, big) = digits-head 20 n [] (omega arith) pos_n in
    let parsed : scan 10 false (c ∷ r) 0 ≡ value n =
      rw shape at (scan-digits false 20 n [] (omega arith) h) in
    rw (shape, parsed)

parse-format_zero : (parse_uint0 (format 0) ≡ 0) × (parse_uint (format 0) ≡ 0)
unfolding parse_uint0 parse_uint format digits
parse-format_zero = (refl, refl)

-- Every number of 64 bits that is printed in decimal is read back by the parser of base 0, which the
-- lock's owner goes through, and by that of base 10.
pub parse-format :
    (n : ℕ) → n ≤ max_u64 → (parse_uint0 (format n) ≡ n) × (parse_uint (format n) ≡ n)
unfolding parse_uint0 parse_uint
parse-format zero h = parse-format_zero
parse-format (suc n) h = (
  rw (parse_base0-format (suc n) h (omega arith)),
  rw (parse_base10-format (suc n) h (omega arith)),
)

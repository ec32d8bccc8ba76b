-- ===== src/Cli/Line.antt =====
-- main.go: a line of words is read as these words, and a printed number as this number.
use pp.Prelude.{
  ℕ, zero, suc, ◌≤◌, ◌≡◌, refl, ap, ◌∙◌, true, false, some, [], ◌∷◌, ◌++◌, leb, ◌==◌, arith, inl,
}
use pp.Text.{Bytes, split, split-append, split-Lacks, Lacks, Lacks-append}
use pp.Text.Decimal.{format, digits, value, scan, max_u64, parse_base10}
use pp.Text.Parse.{parse_base10-format}
use pp.Text.Print.{format-IsDigits, IsDigits-Lacks}
use pp.Cli.Words.{without_newlines, words, number_in, parse_to}

-- It can stand as a word of a line.
abbrev pub IsWord : Bytes → Type 0
IsWord w = Lacks b' ' w × Lacks b'\n' w

pub format-IsWord : (n : ℕ) → IsWord (format n)
format-IsWord n = (
  IsDigits-Lacks b' ' (format n) (inl (omega arith)) (format-IsDigits n),
  IsDigits-Lacks b'\n' (format n) (inl (omega arith)) (format-IsDigits n),
)

without_newlines-Lacks : (s : Bytes) → Lacks b'\n' s → without_newlines s ≡ s
unfolding without_newlines
without_newlines-Lacks [] h = refl
without_newlines-Lacks (c ∷ s) (ne, h) =
    let other : (c == b'\n') ≡ false = ground arith in
    rw other (ap (λ l. c ∷ l) (without_newlines-Lacks s h))

Lacks-line : (w line : Bytes) → IsWord w → Lacks b'\n' line → Lacks b'\n' (w ++ b' ' ∷ line)
Lacks-line w line h k = Lacks-append b'\n' w (b' ' ∷ line) h.1 ((λ e. omega (arith, e)), k)

abbrev pub line_of : Bytes → Bytes → Bytes → Bytes → Bytes
line_of a b c e = a ++ b' ' ∷ (b ++ b' ' ∷ (c ++ b' ' ∷ e))

pub words-line_of :
    (a b c e : Bytes)
    → IsWord a
    → IsWord b
    → IsWord c
    → IsWord e
    → words (line_of a b c e) ≡ a ∷ b ∷ c ∷ e ∷ []
words-line_of a b c e ha hb hc he =
    let one = Lacks-line c e hc he.1 in
    let two = Lacks-line b (c ++ b' ' ∷ e) hb one in
    let all = Lacks-line a (b ++ b' ' ∷ (c ++ b' ' ∷ e)) ha two in
    ap (split b' ') (without_newlines-Lacks (line_of a b c e) all)
    ∙ split-append b' ' a (b ++ b' ' ∷ (c ++ b' ' ∷ e)) ha.0
    ∙ ap (λ l. a ∷ l) (split-append b' ' b (c ++ b' ' ∷ e) hb.0)
    ∙ ap (λ l. a ∷ b ∷ l) (split-append b' ' c e hc.0)
    ∙ ap (λ l. a ∷ b ∷ c ∷ l) (split-Lacks b' ' e he.0)

parse_base10-zero : parse_base10 (format 0) ≡ value 0
unfolding parse_base10 format digits scan
parse_base10-zero = refl

parse_base10-all : (n : ℕ) → n ≤ max_u64 → parse_base10 (format n) ≡ value n
parse_base10-all zero h = parse_base10-zero
parse_base10-all (suc n) h = parse_base10-format (suc n) h (omega arith)

pub parse_to-format : (top n : ℕ) → top ≤ max_u64 → n ≤ top → parse_to top (format n) ≡ some n
unfolding parse_to
parse_to-format top n le h =
    let fits : leb n top ≡ true = ground (arith, h) in
    ap (number_in top) (parse_base10-all n (omega (arith, le, h))) ∙ rw fits refl

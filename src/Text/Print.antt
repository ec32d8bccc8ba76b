-- ===== src/Text/Print.antt =====
-- Numbers are printed as their digits.
use pp.Prelude.{◌⊎◌, ℕ, zero, suc, ◌+◌, ◌/◌, ◌%◌, ◌≤◌, ◌<◌, [], ◌∷◌, arith}
use pp.Text.{Bytes, Lacks}
use pp.Text.Decimal.{digits, format}

abbrev pub IsDigits : Bytes → Type 0
IsDigits [] = Unit
IsDigits (c ∷ s) = (b'0' ≤ c) × (c ≤ b'9') × IsDigits s

pub digits-IsDigits : (fuel n : ℕ) (out : Bytes) → IsDigits out → IsDigits (digits fuel n out)
unfolding digits
digits-IsDigits zero n out h = h
digits-IsDigits (suc fuel) n out h =
    ground (arith, digits-IsDigits fuel (n / 10) ((b'0' + n % 10) ∷ out))

pub format-IsDigits : (n : ℕ) → IsDigits (format n)
unfolding format
format-IsDigits n = digits-IsDigits 20 n [] tt

pub IsDigits-Lacks : (b : ℕ) (s : Bytes) → (b < b'0') ⊎ (b'9' < b) → IsDigits s → Lacks b s
IsDigits-Lacks b [] out h = tt
IsDigits-Lacks b (c ∷ s) out h = (λ e. omega arith, IsDigits-Lacks b s out h.2)

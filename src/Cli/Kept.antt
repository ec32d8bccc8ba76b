-- ===== src/Cli/Kept.antt =====
-- main.go: what every round of the loop keeps.
use pp.Prelude.{
  ℕ, ◌≡◌, refl, subst, Bool, true, false, Option, none, some, some-cancel, if◌then◌else◌, ◌>>=◌,
  >>=-eq-some,
}
use pp.Text.{Bytes}
use pp.Cli.{
  Said, invalid_arguments, already_in, not_in, Cli, Turn, shown_read, shown_write, or_bad,
  if_in_txn,
}

abbrev pub has : {A : Type 0} → Option A → Bool
has none = false
has (some a) = true

-- `t` is `nil` exactly outside of a transaction.
abbrev pub IsValid : Cli → Type 0
IsValid c = has c.txn ≡ c.in_txn

-- What is printed for a command that is refused.
abbrev pub refuses : Said → Bool
refuses invalid_arguments = true
refuses already_in = true
refuses not_in = true
refuses _ = false

-- Every result is as `P` says.
abbrev pub Holds : {A : Type 0} → (A → Type 0) → Option A → Type 0
Holds P o = (r : _) → o ≡ some r → P r

pub Holds-bind :
    {A B : Type 0} (P : B → Type 0) (o : Option A) (k : A → Option B)
    → ((a : A) → Holds P (k a))
    → Holds P (o >>= k)
Holds-bind P o k h r e = let (a, q, e') = >>=-eq-some o k e in h a r e'

Holds-some : {A : Type 0} (P : A → Type 0) (a : A) → P a → Holds P (some a)
Holds-some P a p r e = subst P (some-cancel e) p

pub Holds-if :
    {A : Type 0} (P : A → Type 0) (b : Bool) (o o' : Option A)
    → (b ≡ true → Holds P o)
    → (b ≡ false → Holds P o')
    → Holds P (if b then o else o')
Holds-if P true o o' h h' = h refl
Holds-if P false o o' h h' = h' refl

module _ {S : Type 0} where
  -- The state is valid, and as it was where the command is refused.
  abbrev pub Kept : Cli → S → S × Cli × Said → Type 0
  Kept c s r = IsValid r.1 × (refuses r.2 ≡ true → (r.0 ≡ s) × (r.1 ≡ c))

  -- A round's result.
  abbrev pub Keeps : Cli → S → Turn S → Type 0
  Keeps c s o = Holds (Kept c s) o

  said-Kept :
      (c c' : Cli) (s s' : S) (said : Said)
      → IsValid c'
      → refuses said ≡ false
      → Kept c s (s', c', said)
  said-Kept c c' s s' said v q = (v, λ t. absurd cc)

  pub same-Kept : (c : Cli) (s : S) (said : Said) → IsValid c → Keeps c s (some (s, c, said))
  same-Kept c s said v = Holds-some (Kept c s) (s, c, said) (v, λ q. (refl, refl))

  pub or_bad-Keeps :
      {A : Type 0} (o : Option A) (c : Cli) (s : S) (go : A → Turn S)
      → IsValid c
      → ((a : A) → Keeps c s (go a))
      → Keeps c s (or_bad o c s go)
  or_bad-Keeps none c s go v h = same-Kept c s invalid_arguments v
  or_bad-Keeps (some a) c s go v h = h a

  pub if_in_txn-Keeps :
      (c : Cli) (s : S) (go : Turn S)
      → IsValid c
      → (c.in_txn ≡ true → Keeps c s go)
      → Keeps c s (if_in_txn c s go)
  if_in_txn-Keeps c s go v h =
      Holds-if (Kept c s) c.in_txn go (some (s, c, not_in)) h (λ _. same-Kept c s not_in v)

  -- One of two commands.
  pub switch-Keeps :
      (c : Cli) (s : S) (b : Bool) {o o' : Turn S}
      → Keeps c s o
      → Keeps c s o'
      → Keeps c s (if b then o else o')
  switch-Keeps c s b {o} {o'} h h' = Holds-if (Kept c s) b o o' (λ _. h) (λ _. h')

  pub some-Keeps :
      (c c' : Cli) (s s' : S) (said : Said)
      → IsValid c'
      → refuses said ≡ false
      → Keeps c s (some (s', c', said))
  some-Keeps c c' s s' said v q =
      Holds-some (Kept c s) (s', c', said) (said-Kept c c' s s' said v q)

pub shown_read-refuses : (o : Option Bytes) → refuses (shown_read o) ≡ false
shown_read-refuses none = refl
shown_read-refuses (some d) = refl

pub shown_write-refuses :
    (say : ℕ → Said) (o : Option ℕ)
    → ((n : ℕ) → refuses (say n) ≡ false)
    → refuses (shown_write say o) ≡ false
shown_write-refuses say none h = refl
shown_write-refuses say (some n) h = h n

-- ===== src/Inode/Contents.antt =====
-- inode/iblock.go: the contents of a file, as one text.
use pp.Prelude.{
  ℕ, zero, suc, ◌+◌, ◌-◌, ◌*◌, ◌≤◌, ◌<◌, ◌≡◌, ◌≢◌, refl, ap, ◌∙◌, List, [], ◌∷◌, ◌++◌, take, drop,
  length, length-append, arith,
}
use pp.Text.{Bytes}

module _ {A : Type 0} where
  pub drop-append : (n : ℕ) (xs ys : List A) → n ≤ length xs → drop n (xs ++ ys) ≡ drop n xs ++ ys
  drop-append zero xs ys h = refl
  drop-append (suc n) [] ys h = absurd (omega (arith, h))
  drop-append (suc n) (x ∷ xs) ys h = drop-append n xs ys (omega (arith, h))

  pub drop-append_over :
      (n : ℕ) (xs ys : List A) → length xs ≤ n → drop n (xs ++ ys) ≡ drop (n - length xs) ys
  drop-append_over n [] ys h = ap (λ k. drop k ys) (omega arith)
  drop-append_over zero (x ∷ xs) ys h = absurd (omega (arith, h))
  drop-append_over (suc n) (x ∷ xs) ys h =
      drop-append_over n xs ys (omega (arith, h)) ∙ ap (λ k. drop k ys) (omega arith)

  pub take-append :
      (n : ℕ) (xs ys : List A) → take n (xs ++ ys) ≡ take n xs ++ take (n - length xs) ys
  take-append zero xs ys = let e : 0 - length xs ≡ 0 = omega arith in rw e refl
  take-append (suc n) [] ys = let e : suc n - 0 ≡ suc n = omega arith in rw e refl
  take-append (suc n) (x ∷ xs) ys =
      let e : suc n - suc (length xs) ≡ n - length xs = omega arith in
      rw e (ap (λ l. x ∷ l) (take-append n xs ys))

-- The blocks one after the other.
abbrev pub text : (ℕ → Bytes) → List ℕ → Bytes
text f [] = []
text f (a ∷ addrs) = f a ++ text f addrs

-- Every block but the last has 4096 bytes, and the last not more.
abbrev pub Full : (ℕ → Bytes) → List ℕ → Type 0
Full f [] = Unit {0}
Full f (a ∷ []) = length (f a) ≤ 4096
Full f (a ∷ b ∷ addrs) = (length (f a) ≡ 4096) × Full f (b ∷ addrs)

-- The text from an offset on begins in the block of the offset.
pub drop-text :
    (f : ℕ → Bytes) (bn bo : ℕ) (addrs : List ℕ)
    → Full f addrs
    → bn < length addrs
    → drop (bn * 4096 + bo) (text f addrs) ≡ drop bo (text f (drop bn addrs))
drop-text f zero bo addrs full h = ap (λ n. drop n (text f addrs)) (omega arith)
drop-text f (suc bn) bo [] full h = absurd (omega (arith, h))
drop-text f (suc bn) bo (a ∷ []) full h = absurd (omega (arith, h))
drop-text f (suc bn) bo (a ∷ b ∷ addrs) (len, full) h =
    drop-append_over (suc bn * 4096 + bo) (f a) (text f (b ∷ addrs)) (omega (arith, len))
    ∙ ap (λ n. drop n (text f (b ∷ addrs))) (omega (arith, len))
    ∙ drop-text f bn bo (b ∷ addrs) full (omega (arith, h))

pub length-text :
    (f : ℕ → Bytes) (addrs : List ℕ) → Full f addrs → length (text f addrs) ≤ length addrs * 4096
length-text f [] full = omega arith
length-text f (a ∷ []) full = omega (arith, length-append (f a) [], full)
length-text f (a ∷ b ∷ addrs) (len, full) =
    omega (arith, length-append (f a) (text f (b ∷ addrs)), len, length-text f (b ∷ addrs) full)

pub Full-drop : (f : ℕ → Bytes) (n : ℕ) (addrs : List ℕ) → Full f addrs → Full f (drop n addrs)
Full-drop f zero addrs full = full
Full-drop f (suc n) [] full = tt
Full-drop f (suc n) (a ∷ []) full = Full-drop f n [] tt
Full-drop f (suc n) (a ∷ b ∷ addrs) full = Full-drop f n (b ∷ addrs) full.1

-- The blocks are others than block `n`.
abbrev pub NotAmong : ℕ → List ℕ → Type 0
NotAmong n [] = Unit {0}
NotAmong n (a ∷ addrs) = (n ≢ a) × NotAmong n addrs

pub NotAmong-drop : (m n : ℕ) (addrs : List ℕ) → NotAmong m addrs → NotAmong m (drop n addrs)
NotAmong-drop m zero addrs h = h
NotAmong-drop m (suc n) [] h = tt
NotAmong-drop m (suc n) (a ∷ addrs) h = NotAmong-drop m n addrs h.1

-- No block stands twice.
abbrev pub Apart : List ℕ → Type 0
Apart [] = Unit
Apart (a ∷ addrs) = NotAmong a addrs × Apart addrs

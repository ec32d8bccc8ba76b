-- ===== src/Kvraft/Client/Cycle.antt =====
-- kvraft/client.go: the order in which the servers are asked.
use pp.Prelude.{
  ℕ, zero, suc, ◌+◌, ◌*◌, ◌-◌, ◌<◌, ◌≡◌, ap, ◌∙◌, ltb, ltb→lt, ltb→le, Bool-cases, inl, inr, arith,
}
use pp.Kvraft.Client.{next_server}

-- The server that is asked after `i` retries, from server `l` on.
abbrev pub nth_server : ℕ → ℕ → ℕ → ℕ
nth_server n l zero = l
nth_server n l (suc i) = nth_server n (next_server n l) i

pub next_server-lt : (n l : ℕ) → l < n → next_server n l < n
next_server-lt n l h = ground arith

pub nth_server-lt : (n l i : ℕ) → l < n → nth_server n l i < n
nth_server-lt n l zero h = h
nth_server-lt n l (suc i) h = nth_server-lt n (next_server n l) i (next_server-lt n l h)

next_server-below : (n l : ℕ) → suc l < n → next_server n l ≡ suc l
next_server-below n l h = ground arith

next_server-last : (n l : ℕ) → suc l ≡ n → next_server n l ≡ 0
next_server-last n l h = ground arith

-- Until the end of the list they are asked in its order, and then from its beginning.
nth_server-up : (n l i : ℕ) → l + i < n → nth_server n l i ≡ l + i
nth_server-up n l zero h = omega arith
nth_server-up n l (suc i) h =
    ap (λ x. nth_server n x i) (next_server-below n l (omega (arith, h)))
    ∙ nth_server-up n (suc l) i (omega (arith, h))
    ∙ omega arith

nth_server-over : (n l d k : ℕ) → l + suc d ≡ n → nth_server n l (suc (d + k)) ≡ nth_server n 0 k
nth_server-over n l zero k h =
    ap (λ x. nth_server n x (0 + k)) (next_server-last n l (omega (arith, h)))
    ∙ ap (nth_server n 0) {x = 0 + k} {y = k} (omega arith)
nth_server-over n l (suc d) k h =
    ap (λ x. nth_server n x (suc d + k)) (next_server-below n l (omega (arith, h)))
    ∙ ap (nth_server n (suc l)) {x = suc d + k} {y = suc (d + k)} (omega arith)
    ∙ nth_server-over n (suc l) d k (omega (arith, h))

-- Server `s` is `i` places behind server `l`, the first one following the last one.
abbrev pub IsTurn : ℕ → ℕ → ℕ → ℕ → Type 0
IsTurn n l i s = (s < n) × ((k : ℕ) × (l + i ≡ s + k * n))

pub nth_server-IsTurn : (n l i : ℕ) → l < n → IsTurn n l i (nth_server n l i)
nth_server-IsTurn n l zero h = (h, (0, omega arith))
nth_server-IsTurn n l (suc i) h = elim (Bool-cases (ltb (suc l) n)) [
  | inl t ↦
      let below = ltb→lt _ _ t in
      let e = next_server-below n l below in
      let (lt, (k, at)) = nth_server-IsTurn n (suc l) i below in rw e (lt, (k, omega (arith, at)))
  | inr t ↦
      let last : suc l ≡ n = let le = ltb→le _ _ t in omega (arith, le, h) in
      let e = next_server-last n l last in
      let (lt, (k, at)) = nth_server-IsTurn n 0 i (omega (arith, h)) in
      let more : suc k * n ≡ n + k * n = ground arith in
      rw e (lt, (suc k, omega (arith, at, more, last)))
]

-- Every server is asked within as many rounds as there are servers.
pub nth_server-reaches : (n l k : ℕ) → l < n → k < n → (i : ℕ) × (i < n) × (nth_server n l i ≡ k)
nth_server-reaches n l k h low = elim (Bool-cases (ltb k l)) [
  | inl t ↦
      let before = ltb→lt k l t in
      let over = nth_server-over n l (n - l - 1) k (omega (arith, h)) in
      (
        suc ((n - l - 1) + k),
        omega (arith, before, h),
        over ∙ nth_server-up n 0 k (omega (arith, low)) ∙ omega arith,
      )
  | inr t ↦
      let behind = ltb→le k l t in
      (
        k - l,
        omega (arith, h, low),
        nth_server-up n l (k - l) (omega (arith, behind, low)) ∙ omega (arith, behind),
      )
]

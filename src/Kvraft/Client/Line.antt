-- ===== src/Kvraft/Client/Line.antt =====
-- kvraft/client.go: the calls that wait for the clerk's mutex are made in the order of the servers.
use pp.Prelude.{
  ℕ, zero, suc, ◌+◌, ◌-◌, ◌≡◌, refl, ap, ◌∙◌, List, [], ◌∷◌, ◌++◌, take, drop, length,
  length-append, length-drop, arith,
}
use pp.Kvraft.Client.{next_server, started, still, Event, timed_out, heard}

-- The servers follow each other from `f` on.
abbrev pub Follow : ℕ → ℕ → List ℕ → Type 0
Follow n f [] = Unit {0}
Follow n f (x ∷ xs) = (x ≡ f) × Follow n (next_server n f) xs

-- The servers whose calls are not made yet, with `l` as the last one.
abbrev pub unsent : List ℕ → ℕ → List ℕ
unsent [] l = l ∷ []
unsent (x ∷ line) l = line ++ l ∷ []

Follow-append :
    (n f l : ℕ) (xs : List ℕ)
    → Follow n f (xs ++ l ∷ [])
    → Follow n f ((xs ++ l ∷ []) ++ next_server n l ∷ [])
Follow-append n f l [] h = (h.0, (ap (next_server n) h.0, tt))
Follow-append n f l (x ∷ xs) h = (h.0, Follow-append n (next_server n f) l xs h.1)

-- What is left after some calls, from which server on, and how many there are.
pub record Left (n f : ℕ) (calls rest : List ℕ) (total : ℕ) : Type 0 where
  pub first : ℕ
  pub now : Follow n f (calls ++ first ∷ [])
  pub later : Follow n first rest
  pub count : length calls + length rest ≡ total

Follow-Left :
    (n f m j : ℕ) (xs : List ℕ)
    → Follow n f (xs ++ m ∷ [])
    → Left n f (take (suc j) xs) (unsent (drop j xs) m) (suc (length xs))
Follow-Left n f m zero [] h = record { first = f; now = (refl, tt); later = h; count = refl }
Follow-Left n f m (suc j) [] h = record { first = f; now = (refl, tt); later = h; count = refl }
Follow-Left n f m zero (x ∷ xs) h = record {
  first = next_server n f;
  now = (h.0, (refl, tt));
  later = h.1;
  count = let e = length-append xs (m ∷ []) in omega (arith, e);
}
Follow-Left n f m (suc j) (x ∷ xs) h =
    let r = Follow-Left n (next_server n f) m j xs h.1 in
    record {
      first = r.first;
      now = (h.0, r.now);
      later = r.later;
      count = let c = r.count in omega (arith, c);
    }

-- A round keeps the order.
pub round-Left :
    (n f l k : ℕ) (line : List ℕ)
    → Follow n f (unsent line l)
    → Left n f
        (started line l k)
        (unsent (still line l k) (next_server n l))
        (suc (length (unsent line l)))
round-Left n f l zero [] h = Follow-Left n f (next_server n l) 0 (l ∷ []) (Follow-append n f l [] h)
round-Left n f l (suc k) [] h =
    Follow-Left n f (next_server n l) (suc k) (l ∷ []) (Follow-append n f l [] h)
round-Left n f l zero (x ∷ line) h = record {
  first = f;
  now = (refl, tt);
  later = Follow-append n f l line h;
  count = let e = length-append (line ++ l ∷ []) (next_server n l ∷ []) in omega (arith, e);
}
round-Left n f l (suc k) (x ∷ line) h =
    Follow-Left n f (next_server n l) k (line ++ l ∷ []) (Follow-append n f l line h)

-- The event of a round after which `h` calls are out.
abbrev pub heard_of : {C : Type 0} → ℕ → Event C → Event C
heard_of zero e = e
heard_of (suc h) e = timed_out

pub length-still : (l k : ℕ) (line : List ℕ) → length (still line l k) ≡ suc (length line) - k
length-still l k line =
    let a = length-append line (l ∷ []) in
    let b = length-drop k (line ++ l ∷ []) in omega (arith, a, b)

heard-length : {C : Type 0} (line : List ℕ) (e : Event C) → heard line e ≡ heard_of (length line) e
heard-length [] e = refl
heard-length (x ∷ line) e = refl

pub heard-still :
    {C : Type 0} (l k : ℕ) (line : List ℕ) (e : Event C)
    → heard (still line l k) e ≡ heard_of (suc (length line) - k) e
heard-still l k line e =
    heard-length (still line l k) e ∙ ap (λ h. heard_of h e) (length-still l k line)

-- ===== src/Netdrv/Names/Registered.antt =====
-- netdrv/ppns.go: `Request` keeps the names valid, and what was registered is found.
use pp.Prelude.{
  ℕ, suc, ◌+◌, ◌<◌, ◌≤◌, ◌≡◌, refl, true, false, none, some, [], ◌∷◌, arith, Option-cases,
  Bool-cases, ltb, ltb→lt, ltb→le, ==_refl, ◌⊎◌, inl, inr,
}
use pp.Text.{Bytes, beq_refl}
use pp.Netdrv.Names.{
  NameServer, NsRqArgs, NsRpArgs, name_of, address_of, mk_name, register_as, request,
}
use pp.Netdrv.Names.Given.{
  IsValid, name_of-Given, address_of-Given, address_of-none, address_of-later,
}

abbrev pub registers : Bytes → NsRqArgs
registers a = record { register = true; name = 0; address = a }

abbrev pub asks : ℕ → NsRqArgs
asks k = record { register = false; name = k; address = [] }

-- A registration of an address that is there, and of a new one.
register-known :
    (a : Bytes) (n : NameServer) (k : ℕ)
    → name_of a n.names ≡ some k
    → request (registers a) n ≡ (n, record { ok = true; name = k; address = [] })
unfolding request register_as
register-known a n k h = rw h refl

register-new :
    (a : Bytes) (n : NameServer)
    → name_of a n.names ≡ none
    → request (registers a) n ≡ (
      record { names = (n.max_name, a) ∷ n.names; max_name = n.max_name + 1 },
      record { ok = true; name = n.max_name; address = [] },
    )
unfolding request register_as mk_name
register-new a n h = rw h refl

-- What a registration of `a` in `n` leaves and answers.
pub record Registered (a : Bytes) (n : NameServer) (r : NameServer × NsRpArgs) : Type 0 where
  pub okay : r.1.ok ≡ true
  pub valid : IsValid r.0
  pub below : r.1.name < r.0.max_name
  -- The names that were there keep their addresses, and at most one is added.
  pub kept : (k : ℕ) → k < n.max_name → address_of k r.0.names ≡ address_of k n.names
  pub grown :
      (r.0.max_name ≡ n.max_name) ⊎ (r.0.max_name ≡ suc n.max_name) × (r.1.name ≡ n.max_name)
  -- Asked for the name it gave, the server answers the address.
  pub found : request (asks r.1.name) r.0 ≡ (r.0, record { ok = true; name = 0; address = a })
  -- Registered once more, the address has the same name, and the server does not change.
  pub again : request (registers a) r.0 ≡ r

asked :
    (k : ℕ) (a : Bytes) (n : NameServer)
    → address_of k n.names ≡ some a
    → request (asks k) n ≡ (n, record { ok = true; name = 0; address = a })
unfolding request
asked k a n h = rw h refl

Registered-known :
    (a : Bytes) (n : NameServer) (k : ℕ)
    → IsValid n
    → name_of a n.names ≡ some k
    → Registered a n (n, record { ok = true; name = k; address = [] })
Registered-known a n k valid there =
    let (low, at) = name_of-Given n.names n.max_name a k valid there in
    record {
      okay = refl;
      valid = valid;
      below = low;
      kept = λ j h. refl;
      grown = inl refl;
      found = asked k a n at;
      again = register-known a n k there;
    }

abbrev with_new : Bytes → NameServer → NameServer
with_new a n = record { names = (n.max_name, a) ∷ n.names; max_name = n.max_name + 1 }

new-address : (a : Bytes) (n : NameServer) → address_of n.max_name (with_new a n).names ≡ some a
unfolding address_of
new-address a n = rw (==_refl n.max_name) refl

new-name : (a : Bytes) (n : NameServer) → name_of a (with_new a n).names ≡ some n.max_name
unfolding name_of
new-name a n = rw (beq_refl a) refl

Registered-new :
    (a : Bytes) (n : NameServer)
    → IsValid n
    → name_of a n.names ≡ none
    → Registered a n (with_new a n, record { ok = true; name = n.max_name; address = [] })
Registered-new a n valid new = record {
  okay = refl;
  valid = (omega arith, new, valid);
  below = omega arith;
  kept = λ j h. address_of-later n.max_name j a n.names (omega (arith, h));
  grown = inr (omega arith, refl);
  found = asked n.max_name a (with_new a n) (new-address a n);
  again = register-known a (with_new a n) n.max_name (new-name a n);
}

asked_nothing :
    (k : ℕ) (n : NameServer)
    → address_of k n.names ≡ none
    → request (asks k) n ≡ (n, record { ok = false; name = 0; address = [] })
unfolding request
asked_nothing k n h = rw h refl

-- A registration on a server whose names are valid is answered, leaves valid names,
-- gives an address that is there its own name and a new one the next name, keeps the addresses of the other
-- names, is found under the name it gave, and done once more it changes nothing and answers the same.
pub request-Registered :
    (a : Bytes) (n : NameServer) → IsValid n → Registered a n (request (registers a) n)
request-Registered a n valid = elim (Option-cases (name_of a n.names)) [
  | inl new ↦ rw (register-new a n new) (Registered-new a n valid new)
  | inr (k, there) ↦ rw (register-known a n k there) (Registered-known a n k valid there)
]

register_as-IsValid :
    (a : Bytes) (n : NameServer) → IsValid n → IsValid (register_as (name_of a n.names) a n).0
unfolding request
register_as-IsValid a n valid = (request-Registered a n valid).valid

-- Every request keeps the names valid.
pub request-IsValid : (args : NsRqArgs) (n : NameServer) → IsValid n → IsValid (request args n).0
unfolding request
request-IsValid args n valid = elim (Bool-cases args.register) [
  | inl t ↦ rw t (register_as-IsValid args.address n valid)
  | inr t ↦ rw t valid
]

-- A question for a name does not change the server. On a server whose names are valid it is answered exactly when
-- the name was given, with the address whose name it is.
pub request-asks :
    (k : ℕ) (n : NameServer)
    → IsValid n
    → ((request (asks k) n).0 ≡ n)
      × ((k < n.max_name)
            × ((request (asks k) n).1.ok ≡ true)
            × (name_of (request (asks k) n).1.address n.names ≡ some k)
          ⊎ (n.max_name ≤ k) × ((request (asks k) n).1.ok ≡ false))
request-asks k n valid = elim (Bool-cases (ltb k n.max_name)) [
  | inl t ↦
      let low = ltb→lt k n.max_name t in
      let (a, at, named) = address_of-Given n.names n.max_name k valid low in
      rw (asked k a n at) (refl, inl (low, refl, named))
  | inr t ↦
      let high = ltb→le k n.max_name t in
      rw (asked_nothing k n (address_of-none n.names n.max_name k valid high))
        (refl, inr (high, refl))
]

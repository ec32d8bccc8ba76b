-- ===== src/Netdrv/Names/Found.antt =====
-- netdrv/nc.go, netdrv/staticaddr.go: a server that is registered finds itself in its server list.
use pp.Prelude.{
  ℕ, suc, ◌<◌, ◌≡◌, ◌≢◌, refl, sym, ap, ◌∙◌, Bool, false, some, [], ◌∷◌, ◌++◌, ◌==◌, arith, length,
  length-append, ◌&&◌, zero, ==_refl,
}
use pp.Text.{Bytes, beq, beq_refl, beq-ne}
use pp.Netdrv.Names.{
  NameServer, name_of, address_of, suffix, address_at, mk_default_net_config, index_of, get_me,
}
use pp.Netdrv.Names.Given.{IsValid, address_of-name}

-- Text that both end with does not matter.
beq-append : (a b s : Bytes) → beq (a ++ s) (b ++ s) ≡ beq a b
beq-append [] [] s = beq_refl s
beq-append [] (d ∷ b) s = beq-ne s (d ∷ b ++ s) (λ e.
    let l : length s ≡ suc (length (b ++ s)) = ap length e in
    absurd (omega (arith, l, length-append b s)))
beq-append (c ∷ a) [] s = beq-ne (c ∷ a ++ s) s (λ e.
    let l : suc (length (a ++ s)) ≡ length s = ap length e in
    absurd (omega (arith, l, length-append a s)))
beq-append (c ∷ a) (d ∷ b) s = ap (λ x. (c == d) && x) (beq-append a b s)

-- What `getName` answers for the names of the other servers.
abbrev pub Answers : NameServer → ℕ → (ℕ → Bytes) → Type 0
Answers n me get = (i : ℕ) → i < 3 → i ≢ me → address_of i n.names ≡ some (get i)

-- The place of the own address.
own : (me : ℕ) (my_ip : Bytes) (get : ℕ → Bytes) → address_at (some me) my_ip get me ≡ my_ip
unfolding address_at
own me my_ip get = rw (==_refl me) refl

-- Another server's address is another.
other :
    (n : NameServer) (me : ℕ) (my_ip : Bytes) (get : ℕ → Bytes) (i : ℕ)
    → IsValid n
    → name_of my_ip n.names ≡ some me
    → Answers n me get
    → i < 3
    → i ≢ me
    → beq (address_at (some me) my_ip get i) my_ip ≡ false
unfolding address_at
other n me my_ip get i valid named answers low ne =
    let away : (i == me) ≡ false = ground arith in
    rw away (
      beq-ne (get i) my_ip (λ same.
        let e : some i ≡ some me =
          sym (address_of-name n.names n.max_name i (get i) valid (answers i low ne))
          ∙ ap (λ a. name_of a n.names) same
          ∙ named in
        ne cc))

-- A server that registered its address at a name server whose names are valid, got one of the names 0, 1 and 2, and asked
-- for the other two, finds itself in its list, at the place of its name.
pub get_me-name :
    (n : NameServer) (is_raft : Bool) (me : ℕ) (my_ip : Bytes) (get : ℕ → Bytes)
    → IsValid n
    → name_of my_ip n.names ≡ some me
    → me < 3
    → Answers n me get
    → get_me is_raft my_ip (mk_default_net_config is_raft (some me) my_ip get) ≡ some me
unfolding get_me mk_default_net_config index_of address_at
get_me-name n is_raft zero my_ip get valid named low answers =
    rw (beq-append my_ip my_ip (suffix is_raft) ∙ beq_refl my_ip) refl
get_me-name n is_raft (suc zero) my_ip get valid named low answers =
    let zeroth = other n 1 my_ip get 0 valid named answers (omega arith) (omega arith) in
    rw
      (
        beq-append (get 0) my_ip (suffix is_raft) ∙ zeroth,
        beq-append my_ip my_ip (suffix is_raft) ∙ beq_refl my_ip,
      )
      refl
get_me-name n is_raft (suc (suc zero)) my_ip get valid named low answers =
    let zeroth = other n 2 my_ip get 0 valid named answers (omega arith) (omega arith) in
    let first = other n 2 my_ip get 1 valid named answers (omega arith) (omega arith) in
    rw
      (
        beq-append (get 0) my_ip (suffix is_raft) ∙ zeroth,
        beq-append (get 1) my_ip (suffix is_raft) ∙ first,
        beq-append my_ip my_ip (suffix is_raft) ∙ beq_refl my_ip,
      )
      refl
get_me-name n is_raft (suc (suc (suc me))) my_ip get valid named low answers =
    absurd (omega (arith, low))

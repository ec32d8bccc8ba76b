-- ===== src/Netdrv/Names.antt =====
-- netdrv/ppns.go: the name server. netdrv/nc.go and netdrv/staticaddr.go: the server lists.
pub mod Given
pub mod Registered
pub mod Found
use pp.Prelude.{
  ℕ, zero, suc, ◌+◌, Bool, true, false, ◌&&◌, not, Option, none, some, List, [], ◌∷◌, ◌++◌, map,
  ◌==◌, if◌then◌else◌, ◌>>=◌,
}
use pp.Text.{Bytes, codes, beq}
use pp.Text.Decimal.{format}

-- `names` as its pairs. A range over a map has no fixed order: the order of the list stands for any.
pub record NameServer : Type 0 where
  pub names : List (ℕ × Bytes)
  pub max_name : ℕ

pub record NsRqArgs : Type 0 where
  pub register : Bool
  pub name : ℕ
  pub address : Bytes

pub record NsRpArgs : Type 0 where
  pub ok : Bool
  pub name : ℕ
  pub address : Bytes

abbrev pub new_server : NameServer
new_server = record { names = []; max_name = 0 }

-- The name of an address, and the address of a name.
unfoldable pub name_of : Bytes → List (ℕ × Bytes) → Option ℕ
name_of a [] = none
name_of a ((n, b) ∷ l) = let rest = name_of a l in if beq b a then some n else rest

unfoldable pub address_of : ℕ → List (ℕ × Bytes) → Option Bytes
address_of m [] = none
address_of m ((n, b) ∷ l) = let rest = address_of m l in if n == m then some b else rest

unfoldable pub mk_name : NameServer → NameServer × ℕ
mk_name n = (record n { max_name = n.max_name + 1 }, n.max_name)

unfoldable pub register_as : Option ℕ → Bytes → NameServer → NameServer × NsRpArgs
unfolding mk_name
register_as (some k) a n = (n, record { ok = true; name = k; address = [] })
register_as none a n =
    let (n', k) = mk_name n in
    (record n' { names = (k, a) ∷ n'.names }, record { ok = true; name = k; address = [] })

abbrev pub answer : Option Bytes → NsRpArgs
answer none = record { ok = false; name = 0; address = [] }
answer (some a) = record { ok = true; name = 0; address = a }

unfoldable pub request : NsRqArgs → NameServer → NameServer × NsRpArgs
unfolding register_as
request args n =
    if args.register
    then register_as (name_of args.address n.names) args.address n
    else (n, answer (address_of args.name n.names))

-- `getName` asks until the name is there; each round is a state of the server that answers.
unfoldable pub get_name : ℕ → List NameServer → Option Bytes
get_name which [] = none
get_name which (n ∷ later) =
    let reply = (request (record { register = false; name = which; address = [] }) n).1 in
    let again = get_name which later in if reply.ok then some reply.address else again

abbrev pub kv_suffix : Bytes
kv_suffix = codes ":1235"

abbrev pub raft_suffix : Bytes
raft_suffix = codes ":1234"

-- The ports of `MkDefaultNetConfig`, by its constants.
abbrev pub suffix : Bool → Bytes
suffix true = raft_suffix
suffix false = kv_suffix

-- The address that `MkDefaultNetConfig` puts at a place: the server's own for its name, if it registers.
unfoldable pub address_at : Option ℕ → Bytes → (ℕ → Bytes) → ℕ → Bytes
address_at none my_ip get i = get i
address_at (some me) my_ip get i = if i == me then my_ip else get i

-- `get` is what `getName` returns.
unfoldable pub mk_default_net_config : Bool → Option ℕ → Bytes → (ℕ → Bytes) → List Bytes
unfolding address_at
mk_default_net_config is_raft me my_ip get =
    let at = address_at me my_ip get in map (λ a. a ++ suffix is_raft) (at 0 ∷ at 1 ∷ at 2 ∷ [])

-- The ports of `GetMe`, which are written out there.
abbrev pub own_suffix : Bool → Bytes
own_suffix true = codes ":1234"
own_suffix false = codes ":1235"

-- The place in the list; `none` is the error.
unfoldable pub index_of : Bytes → List Bytes → Option ℕ
index_of me [] = none
index_of me (srv ∷ l) =
    let rest = index_of me l in if beq srv me then some 0 else (do i ← rest; some (suc i))

unfoldable pub get_me : Bool → Bytes → List Bytes → Option ℕ
get_me is_raft my_ip servers = index_of (my_ip ++ own_suffix is_raft) servers

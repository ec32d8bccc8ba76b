-- ===== src/Netdrv/Tests.antt =====
-- A name server with two names, and a server list of three.
use pp.Prelude.{ℕ, zero, suc, ◌≡◌, refl, true, some, [], ◌∷◌, arith}
use pp.Text.{Bytes, codes}
use pp.Netdrv.Names.{
  NameServer, name_of, address_of, request, get_name, mk_default_net_config, get_me,
}
use pp.Netdrv.Names.Given.{IsValid}
use pp.Netdrv.Names.Registered.{Registered, registers, request-Registered}
use pp.Netdrv.Names.Found.{Answers, get_me-name}

abbrev two_names : NameServer
two_names = record { names = (1, codes "10.0.0.2") ∷ (0, codes "10.0.0.1") ∷ []; max_name = 2 }

two_names-IsValid : IsValid two_names
unfolding name_of
two_names-IsValid = (refl, refl, (refl, refl, refl))

abbrev three_names : NameServer
three_names = record { names = (2, codes "10.0.0.3") ∷ two_names.names; max_name = 3 }

three_names-IsValid : IsValid three_names
unfolding name_of
three_names-IsValid = (refl, refl, two_names-IsValid)

request-Registered_example :
    Registered (codes "10.0.0.3") two_names (request (registers (codes "10.0.0.3")) two_names)
request-Registered_example = request-Registered (codes "10.0.0.3") two_names two_names-IsValid

abbrev ips : ℕ → Bytes
ips zero = codes "10.0.0.1"
ips (suc zero) = codes "10.0.0.2"
ips i = codes "10.0.0.3"

three_names-Answers : Answers three_names 1 ips
unfolding address_of
three_names-Answers zero low ne = refl
three_names-Answers (suc zero) low ne = absurd (ne refl)
three_names-Answers (suc (suc zero)) low ne = refl
three_names-Answers (suc (suc (suc i))) low ne = absurd (omega (arith, low))

second-name : name_of (codes "10.0.0.2") three_names.names ≡ some 1
unfolding name_of
second-name = refl

get_me-name_example :
    get_me true (codes "10.0.0.2") (mk_default_net_config true (some 1) (codes "10.0.0.2") ips)
    ≡ some 1
get_me-name_example =
    get_me-name three_names true 1 (codes "10.0.0.2") ips three_names-IsValid second-name
      (omega arith) three_names-Answers

-- The name is asked for until it is there.
get_name_waits :
    get_name 1 (record { names = []; max_name = 0 } ∷ two_names ∷ []) ≡ some (codes "10.0.0.2")
unfolding get_name request address_of
get_name_waits = refl

-- ===== src/Kvraft/Broadcast.antt =====
-- kvraft/bcast.go: the requests that wait are told of each message that was applied.
pub mod Subscribers
use pp.Prelude.{
  ℕ, zero, suc, ◌+◌, ◌-◌, ◌%◌, Bool, true, false, Option, none, some, List, [], ◌∷◌, length, ◌==◌,
  if◌then◌else◌, ◌>>=◌,
}
use pp.Text.Decimal.{two64}

-- The channels are values of `C`. A range over a map has no fixed order: the order of the list stands for any.
pub record Bcast (C : Type 0) : Type 0 where
  pub net : List (ℕ × C)
  pub nsub : ℕ

-- What `pub` does: the channels that get the message, and the number of acknowledgements it waits for.
pub record Published (C : Type 0) : Type 0 where
  pub sent : List C
  pub awaited : ℕ

module _ {C : Type 0} where
  abbrev pub mk_bcast : Bcast C
  mk_bcast = record { net = []; nsub = 0 }

  abbrev pub lookup : ℕ → List (ℕ × C) → Option C
  lookup id [] = none
  lookup id ((i, c) ∷ net) = if i == id then some c else lookup id net

  abbrev pub is_subscribed : Option C → Bool
  is_subscribed none = false
  is_subscribed (some c) = true

  -- The first of the random numbers that is not taken; `none` where they run out.
  abbrev pub first_free : List (ℕ × C) → List ℕ → Option ℕ
  first_free net [] = none
  first_free net (id ∷ ids) =
      let rest = first_free net ids in if is_subscribed (lookup id net) then rest else some id

  unfoldable pub sub : List ℕ → C → Bcast C → Option (Bcast C × ℕ)
  sub ids c b = do
    this_id ← first_free b.net ids
    some (record { net = (this_id, c) ∷ b.net; nsub = (b.nsub + 1) % two64 }, this_id)

  abbrev pub delete : ℕ → List (ℕ × C) → List (ℕ × C)
  delete id [] = []
  delete id ((i, c) ∷ net) = let rest = delete id net in if i == id then rest else (i, c) ∷ rest

  -- With the channel that is closed. To close the channel of a number that is not there is a panic.
  unfoldable pub unsub : ℕ → Bcast C → Option (Bcast C × C)
  unsub this_id b = do
    c ← lookup this_id b.net
    some (record { net = delete this_id b.net; nsub = (b.nsub + (two64 - 1)) % two64 }, c)

  -- The channels that the message is sent to: `killed` says for each whether the server was killed before.
  abbrev pub send_all : (ℕ → Bool) → List (ℕ × C) → List C
  send_all killed [] = []
  send_all killed ((i, c) ∷ net) =
      let rest = send_all (λ k. killed (suc k)) net in if killed 0 then [] else c ∷ rest

  unfoldable pub publish : (ℕ → Bool) → Bcast C → Published C
  publish killed b = record { sent = send_all killed b.net; awaited = length b.net }

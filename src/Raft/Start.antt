-- ===== src/Raft/Start.antt =====
-- raft/raft.go: `Start` and `GetState`.
use pp.Prelude.{ℕ, ◌-◌, Bool, true, false, Option, some, [], ◌∷◌, ◌++◌, length, ◌>>=◌}
use pp.Prelude.Int.{ℤ, pos, minus_one}
use pp.Raft.State.{Role, leader, follower, candidate, Raft}
use pp.Raft.Persist.{persist}

abbrev pub is_leader : Role → Bool
is_leader leader = true
is_leader follower = false
is_leader candidate = false

-- The index that the command will have, the term, and whether this server is the leader.
pub record Started : Type 0 where
  pub index : ℤ
  pub term : ℤ
  pub is_leader : Bool

module _ {C : Type 0} where
  unfoldable pub get_state : Raft C → ℕ × Bool
  get_state rf = (rf.term, is_leader rf.st)

  unfoldable pub accept_command : Bool → C → Raft C → Option (Raft C × Started)
  accept_command false cmd rf =
      some (rf, record { index = minus_one; term = minus_one; is_leader = false })
  accept_command true cmd rf = do
    rf' ←
        persist
          (record rf { log = rf.log ++ some (record { term = rf.term; cmd = some cmd }) ∷ [] })
    some (
      record rf' { msg_flag = true },
      record { index = pos (length rf'.log - 1); term = pos rf'.term; is_leader = true },
    )

  unfoldable pub start : C → Raft C → Option (Raft C × Started)
  unfolding accept_command
  start cmd rf = accept_command (is_leader rf.st) cmd rf

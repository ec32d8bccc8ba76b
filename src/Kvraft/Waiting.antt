-- ===== src/Kvraft/Waiting.antt =====
-- kvraft/server.go: a request from its start to its answer, with its subscription.
pub mod Answered
pub mod Hearing
use pp.Prelude.{ℕ, Bool, true, false, Option, some, List, [], ◌∷◌, if◌then◌else◌, ◌>>=◌}
use pp.Prelude.Int.{ℤ, pos, negsuc}
use pp.Kvraft.State.{wrong_leader, RequestArgs, RequestReply, StringMap}
use pp.Kvraft.Reply.{Heard, wait, rerequest, answer, hear}
use pp.Kvraft.Broadcast.{Bcast, sub, unsub}
use pp.Raft.State.{Raft}
use pp.Raft.Start.{Started, start, get_state}

-- The server's part that a request changes, and the channels that were closed; a channel is a number.
pub record Served : Type 0 where
  pub rf : Raft RequestArgs
  pub b : Bcast ℕ
  pub shut : List ℕ

-- A request that has its answer, or that waits for the index with the number of its subscription.
pub data Doing : Type 0 where
  replies : RequestReply → Doing
  waits : ℤ → ℕ → Doing

abbrev pub not_leader : RequestArgs → RequestReply
not_leader args = record { seq = args.seq; e = wrong_leader; value = [] }

-- The message against the index that `Start` gave.
unfoldable pub hear_at : Bool → ℤ → RequestArgs → ℕ → RequestArgs → StringMap → Heard
hear_at am_leader (pos idx) args index cmd kvm = hear am_leader idx args index cmd kvm
hear_at am_leader (negsuc n) args index cmd kvm =
    if am_leader then wait else answer (not_leader args)

module _ (ids : List ℕ) (msgc : ℕ) (args : RequestArgs) where
  -- From the label `rerequest` on.
  unfoldable pub request_again : Served → Option (Served × Doing)
  request_again w = do
    (rf', st) ← start args w.rf
    let subscribed = (do
      (b', id) ← sub ids msgc w.b
      some (record w { rf = rf'; b = b' }, waits st.index id))
    if st.is_leader then subscribed else some (record w { rf = rf' }, replies (not_leader args))

  -- The subscription ends, and its channel is closed.
  abbrev pub left : ℕ → Served → Option Served
  left id w = do (b', c) ← unsub id w.b; some (record w { b = b'; shut = c ∷ w.shut })

  -- Every branch acknowledges the message once.
  unfoldable pub after_hearing : ℤ → ℕ → Served → Heard → Option (Served × Doing)
  unfolding request_again
  after_hearing idx id w wait = some (w, waits idx id)
  after_hearing idx id w rerequest = left id w >>= request_again
  after_hearing idx id w (answer r) = do w' ← left id w; some (w', replies r)

  unfoldable pub hear_message :
      ℤ → ℕ → ℕ → RequestArgs → StringMap → Served → Option (Served × Doing)
  unfolding after_hearing hear_at
  hear_message idx id index cmd kvm w =
      after_hearing idx id w (hear_at (get_state w.rf).1 idx args index cmd kvm)

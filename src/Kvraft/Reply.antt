-- ===== src/Kvraft/Reply.antt =====
-- kvraft/server.go: what `Request` does with a message of the apply loop, and what it answers.
use pp.Prelude.{ℕ, Bool, Option, none, some, [], ◌==◌, if◌then◌else◌}
use pp.Kvraft.State.{
  OpCode, get, failing_acquire, failing_locked, ok, no_key, wrong_leader, lock_held, lock_not_held,
  RequestArgs, RequestReply, StringMap,
}
use pp.Text.{Bytes}

unfoldable pub value_reply : ℕ → Option Bytes → RequestReply
value_reply seq (some v) = record { seq = seq; e = ok; value = v }
value_reply seq none = record { seq = seq; e = no_key; value = [] }

-- The answer where the command was applied as it was asked for.
unfoldable pub asked_reply : OpCode → RequestArgs → StringMap → RequestReply
unfolding value_reply
asked_reply get args kvm = value_reply args.seq (kvm args.key)
asked_reply asked args kvm = record { seq = args.seq; e = ok; value = [] }

-- The answer once the request's own command was applied: `asked` is the code of the request.
unfoldable pub reply_to : OpCode → OpCode → RequestArgs → StringMap → RequestReply
unfolding asked_reply
reply_to failing_acquire asked args kvm = record { seq = args.seq; e = lock_held; value = [] }
reply_to failing_locked asked args kvm = record { seq = args.seq; e = lock_not_held; value = [] }
reply_to code asked args kvm = asked_reply asked args kvm

-- `wait`: the message is about another index; `rerequest`: another command stands at the index, and the
-- request is started again.
pub data Heard : Type 0 where
  wait : Heard
  rerequest : Heard
  answer : RequestReply → Heard

-- A message at `index` with the command `cmd`, for a request that `Start` put at `idx`.
unfoldable pub hear : Bool → ℕ → RequestArgs → ℕ → RequestArgs → StringMap → Heard
unfolding reply_to
hear am_leader idx args index cmd kvm =
    if am_leader
    then (if index == idx
        then (if cmd.seq == args.seq
            then answer (reply_to cmd.code args.code args kvm)
            else rerequest)
        else wait)
    else answer (record { seq = args.seq; e = wrong_leader; value = [] })

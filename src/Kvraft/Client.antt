-- ===== src/Kvraft/Client.antt =====
-- kvraft/client.go: the clerk, which asks one server after the other.
pub mod Cycle
pub mod Line
pub mod Outcome
pub mod Rounds
pub mod Answered
pub mod Reached
pub mod Retried
use pp.Prelude.{
  ℕ, suc, ◌+◌, ◌*◌, Bool, true, false, Option, none, some, List, [], ◌∷◌, set, get_elem?, length,
  leb, map, take, drop, ◌++◌, if◌then◌else◌, ◌>>=◌,
}
use pp.Text.{Bytes}
use pp.Text.Decimal.{format}
use pp.Kvraft.State.{OpCode, Err, RequestArgs}
use pp.Kvraft.State.OpCode.{
  get, put, append, acquire, release, renew, failing_acquire, failing_locked,
}
use pp.Kvraft.State.Err.{ok, no_key, wrong_leader, lock_held, lock_not_held, timeout}

-- The connections are values of `C`.
pub record Clerk (C : Type 0) : Type 0 where
  pub id : ℕ
  pub servers : List C
  pub last_ldr : ℕ

-- How a call ends: with an error, after which the server is dialled again, and perhaps reached; not within
-- a second; or with a reply.
pub data Event (C : Type 0) : Type 0 where
  failed : Option C → Event C
  timed_out : Event C
  replied : Err → Bytes → Event C

-- One round of the loop: how its own call ends, how many calls come back in it, and the number and the time that are
-- there for a new try. The own call comes back last, after those that are in front of it.
pub record Round (C : Type 0) : Type 0 where
  pub event : Event C
  pub returned : ℕ
  pub fresh : ℕ
  pub now : ℕ

-- What `doRequest` returns: the value, or the error "lock not held".
pub data Answer : Type 0 where
  value : Bytes → Answer
  not_held : Answer

-- What a round comes to.
pub data Next : Type 0 where
  done : Answer → Next
  retry : RequestArgs → Next

-- A run of the loop: the clerk, the requests in their order with the server of each, and the answer,
-- `none` where the rounds ended before it came.
pub record Run (C : Type 0) : Type 0 where
  pub clerk : Clerk C
  pub sent : List (ℕ × RequestArgs)
  pub answer : Option Answer

abbrev pub next_server : ℕ → ℕ → ℕ
next_server npeers l = if leb npeers (l + 1) then 0 else l + 1

-- A call is made under the clerk's mutex, which is handed on in the order of arrival: of the servers in `line` the first one is
-- being called, and the calls of the others wait. In a round for server `l` in which `k` calls come back, these calls
-- are made,
abbrev pub started : List ℕ → ℕ → ℕ → List ℕ
started [] l k = l ∷ []
started (x ∷ line) l k = take k (line ++ l ∷ [])

-- and these calls have not come back at its end.
abbrev pub still : List ℕ → ℕ → ℕ → List ℕ
still line l k = drop k (line ++ l ∷ [])

module _ {C : Type 0} where
  -- While calls are out, the own one is, and the second passes.
  abbrev pub heard : List ℕ → Event C → Event C
  heard [] e = e
  heard (x ∷ line) e = timed_out

  abbrev pub after_reply : RequestArgs → Round C → Err → Bytes → Next
  after_reply a r wrong_leader v = retry a
  after_reply a r timeout v = retry a
  after_reply a r lock_held v = retry (record a { seq = r.fresh; value = format r.now })
  after_reply a r lock_not_held v = done not_held
  after_reply a r ok v = done (value v)
  after_reply a r no_key v = done (value v)

  abbrev pub after_event : RequestArgs → Round C → Event C → Next
  after_event a r (failed c) = retry a
  after_event a r timed_out = retry a
  after_event a r (replied e v) = after_reply a r e v

  abbrev pub redialled : ℕ → Event C → List C → List C
  redialled l (failed (some c)) servers = set servers l c
  redialled l (failed none) servers = servers
  redialled l timed_out servers = servers
  redialled l (replied e v) servers = servers

  -- Only a value that is returned makes its server the one that is asked first.
  abbrev pub finished : ℕ → Answer → Clerk C → Clerk C
  finished l (value v) ck = record ck { last_ldr = l }
  finished l not_held ck = ck

  -- The request is sent in the calls that are made in the round, and then as the round ends.
  abbrev pub sending : List ℕ → RequestArgs → Option (Run C) → Option (Run C)
  sending calls a none = none
  sending calls a (some run) = some (record run { sent = map (λ x. (x, a)) calls ++ run.sent })

  abbrev pub go_on :
      ℕ → List ℕ → RequestArgs → Clerk C → (RequestArgs → Option (Run C)) → Next → Option (Run C)
  go_on l calls a ck next (done w) =
      some (record { clerk = finished l w ck; sent = map (λ x. (x, a)) calls; answer = some w })
  go_on l calls a ck next (retry a') = sending calls a (next a')

  -- The loop from server `l` on, while the calls in `line` are out. A server that is not in the list is an index out of range.
  unfoldable pub request_from :
      ℕ → ℕ → List ℕ → RequestArgs → Clerk C → List (Round C) → Option (Run C)
  request_from npeers l line a ck [] = some (record { clerk = ck; sent = []; answer = none })
  request_from npeers l line a ck (r ∷ rounds) = do
    let line' = still line l r.returned
    let e = heard line' r.event
    let ck' = record ck { servers = redialled l e ck.servers }
    let next : RequestArgs → Option (Run C) =
        λ a'. request_from npeers (next_server npeers l) line' a' ck' rounds
    c ← get_elem? ck.servers l
    go_on l (started line l r.returned) a ck' next (after_event a r e)

  -- `seq` is the number that `mkSeq` gives. No call is out, since the clerk makes one request at a time.
  unfoldable pub do_request : OpCode → Bytes → Bytes → ℕ → Clerk C → List (Round C) → Option (Run C)
  unfolding request_from
  do_request op key v seq ck rounds =
      let a : RequestArgs = record {
        client_id = ck.id;
        seq = seq;
        code = op;
        key = key;
        value = v;
      } in
      request_from (length ck.servers) ck.last_ldr [] a ck rounds

-- The value that `Get`, `Put`, `Append`, `Acquire`, `Release` and `Renew` hand over; no method asks for the rest.
abbrev pub given_value : OpCode → Bytes → ℕ → Option Bytes
given_value get v now = some []
given_value put v now = some v
given_value append v now = some v
given_value acquire v now = some (format now)
given_value release v now = some []
given_value renew v now = some (format now)
given_value failing_acquire v now = none
given_value failing_locked v now = none

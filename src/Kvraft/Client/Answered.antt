-- ===== src/Kvraft/Client/Answered.antt =====
-- kvraft/client.go: the answer of a request, the requests that were sent for it.
use pp.Prelude.{
  ℕ, ◌-◌, ◌≤◌, ◌<◌, ◌≡◌, ◌≢◌, refl, none, some, List, [], get_elem?, length, arith, Returns,
}
use pp.Text.{Bytes}
use pp.Kvraft.State.{OpCode, RequestArgs}
use pp.Kvraft.Client.{Clerk, Round, value, Run, do_request}
use pp.Kvraft.Client.Cycle.{IsTurn, nth_server-IsTurn}
use pp.Kvraft.Client.Rounds.{request_from-RunFrom}
use pp.Kvraft.Client.Outcome.{SameRequest, first_answer, tries}

module _ {C : Type 0} where
  abbrev pub request_of : OpCode → Bytes → Bytes → ℕ → Clerk C → RequestArgs
  request_of op key v seq ck = record {
    client_id = ck.id;
    seq = seq;
    code = op;
    key = key;
    value = v;
  }

  -- What a request comes to, for `n` servers, the first of which is `l`.
  pub record Requested (n l : ℕ) (a : RequestArgs) (ck : Clerk C) (rounds : List (Round C))
      (run : Run C) : Type 0 where
    pub size : length run.clerk.servers ≡ length ck.servers
    -- The first final reply is the answer. At most one request was sent for each round up to it, and one for each when it came.
    pub answered : run.answer ≡ first_answer 0 rounds
    pub bounded : length run.sent ≤ tries 0 rounds
    pub count : first_answer 0 rounds ≢ none → length run.sent ≡ tries 0 rounds
    -- The server that gave a value is asked first the next time.
    pub leader :
        (v : Bytes)
        → first_answer 0 rounds ≡ some (value v)
        → IsTurn n l (tries 0 rounds - 1) run.clerk.last_ldr
    pub kept :
        ((v : Bytes) → first_answer 0 rounds ≢ some (value v)) → run.clerk.last_ldr ≡ ck.last_ldr
    -- The servers are asked in their order, for the same operation of the same client.
    pub order :
        (i : ℕ) (q : ℕ × RequestArgs)
        → get_elem? run.sent i ≡ some q
        → IsTurn n l i q.0 × SameRequest a q.1

  -- A request of a clerk whose first server is in its list never asks a server that is not there. It
  -- asks the servers in turn, server `(l + i) mod n` as number `i` from the first one on, for the same operation of the same
  -- client, also where calls that hang keep the next ones waiting. It returns the first final reply that comes within a
  -- second while no call is out, after as many requests as rounds up to that one, and at any time has sent at most one for each round;
  -- it then starts with the server that gave a value the next time, and with the old one after "lock not held".
  pub do_request-Requested :
      (op : OpCode) (key v : Bytes) (seq : ℕ) (ck : Clerk C) (rounds : List (Round C))
      → ck.last_ldr < length ck.servers
      → Returns
          (do_request op key v seq ck rounds)
          (Requested (length ck.servers) ck.last_ldr (request_of op key v seq ck) ck rounds)
  unfolding do_request
  do_request-Requested op key v seq ck rounds h =
      let n = length ck.servers in
      let l = ck.last_ldr in
      let (run, made, q) =
        request_from-RunFrom n l l [] (request_of op key v seq ck) ck rounds h refl (refl, tt) in
      let few = q.bounded in
      (
        run,
        made,
        record {
          size = q.size;
          answered = q.answered;
          bounded = omega (arith, few);
          count = λ z. let c = q.count z in omega (arith, c);
          leader = λ v' e. rw (q.leader v' e) (nth_server-IsTurn n l (tries 0 rounds - 1) h);
          kept = q.kept;
          order = λ i p e. (rw ((q.order i p e).0) (nth_server-IsTurn n l i h), (q.order i p e).1);
        },
      )

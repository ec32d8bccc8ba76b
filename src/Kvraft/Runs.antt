-- ===== src/Kvraft/Runs.antt =====
-- A clerk with three servers, and three subscriptions; the connections and the channels are numbers.
use pp.Prelude.{
  ℕ, zero, suc, ◌≤◌, ◌<◌, ◌≡◌, ◌≢◌, ◌⊎◌, refl, sym, ap, ◌∙◌, true, false, none, some, List, [], ◌∷◌,
  ◌++◌, map, length, get_elem?, arith, Returns, some-cancel,
}
use pp.Text.{codes}
use pp.Kvraft.State.{RequestArgs, put, ok, wrong_leader}
use pp.Prelude.Int.{pos}
use pp.Raft.State.{Raft, leader}
use pp.Raft.Persist.{fresh, kept, persist-HasLog}
use pp.Raft.Start.{Started, start, accept_command}
use pp.Kvraft.Waiting.{Served, request_again}
use pp.Kvraft.Waiting.Answered.{HasNumber, Serves, request_again-Hears}
use pp.Kvraft.Client.{Clerk, Round, failed, timed_out, replied, value, do_request}
use pp.Kvraft.Client.Cycle.{IsTurn}
use pp.Kvraft.Client.Outcome.{answer_of}
use pp.Kvraft.Client.Answered.{Requested, request_of, do_request-Requested}
use pp.Kvraft.Client.Reached.{AllReturn, do_request-answers}
use pp.Kvraft.Client.Retried.{AllThe, NoLockHeld, do_request-AllThe}
use pp.Kvraft.Broadcast.{Bcast, lookup, unsub, publish}
use pp.Kvraft.Broadcast.Subscribers.{IsValid, unsub-IsValid, publish-Waits}

abbrev three_servers : Clerk ℕ
three_servers = record { id = 77; servers = 10 ∷ 11 ∷ 12 ∷ []; last_ldr = 1 }

abbrev answering : Round ℕ
answering = record { event = replied ok (codes "done"); returned = 1; fresh = 7; now = 102 }

-- Server 1 does not answer, server 2 is not the leader, server 0 is.
abbrev three_rounds : List (Round ℕ)
three_rounds =
    record { event = failed (some 21); returned = 1; fresh = 5; now = 100 }
    ∷ record { event = replied wrong_leader []; returned = 1; fresh = 6; now = 101 }
    ∷ answering
    ∷ []

-- The call to server 1 hangs for a round, and holds up those to server 2 and server 0.
abbrev late_rounds : List (Round ℕ)
late_rounds =
    record { event = timed_out; returned = 0; fresh = 5; now = 100 }
    ∷ record { event = timed_out; returned = 1; fresh = 6; now = 101 }
    ∷ record { event = replied ok (codes "done"); returned = 2; fresh = 7; now = 102 }
    ∷ []

do_request-Requested_example :
    Returns (do_request put (codes "a") (codes "b") 9 three_servers late_rounds) (
      Requested 3 1
        (request_of put (codes "a") (codes "b") 9 three_servers)
        three_servers
        late_rounds)
do_request-Requested_example =
    do_request-Requested put (codes "a") (codes "b") 9 three_servers late_rounds (omega arith)

server_0-final :
    (i : ℕ) (r : Round ℕ)
    → get_elem? three_rounds i ≡ some r
    → IsTurn 3 1 i 0
    → answer_of r.event ≢ none
server_0-final zero r at (lt, (k, h)) = absurd (omega (arith, h))
server_0-final (suc zero) r at (lt, (k, h)) = absurd (omega (arith, h))
server_0-final (suc (suc zero)) r at h =
    let e : answering ≡ r = cc in
    let f : answer_of r.event ≡ some (value (codes "done")) = ap (λ x. answer_of x.event) (sym e) in
    (λ z. let g = sym f ∙ z in cc)
server_0-final (suc (suc (suc i))) r at h = absurd cc

three_rounds-AllReturn : AllReturn three_rounds
three_rounds-AllReturn zero r at = let e = ap (λ x. x.returned) (some-cancel at) in omega (arith, e)
three_rounds-AllReturn (suc zero) r at =
    let e = ap (λ x. x.returned) (some-cancel at) in omega (arith, e)
three_rounds-AllReturn (suc (suc zero)) r at =
    let e = ap (λ x. x.returned) (some-cancel at) in omega (arith, e)
three_rounds-AllReturn (suc (suc (suc i))) r at = absurd cc

do_request-answers_example :
    Returns
      (do_request put (codes "a") (codes "b") 9 three_servers three_rounds)
      (λ run. (run.answer ≢ none) × (length run.sent ≤ 3))
do_request-answers_example =
    do_request-answers put (codes "a") (codes "b") 9 three_servers three_rounds 0 (omega arith)
      (omega arith) (omega arith) three_rounds-AllReturn server_0-final

three_rounds-NoLockHeld : NoLockHeld three_rounds
three_rounds-NoLockHeld =
    ((λ p. let e = p.1 in cc), ((λ p. let e = p.1 in cc), ((λ p. let e = p.1 in cc), tt)))

do_request-AllThe_example :
    Returns
      (do_request put (codes "a") (codes "b") 9 three_servers three_rounds)
      (λ run. AllThe (request_of put (codes "a") (codes "b") 9 three_servers) run.sent)
do_request-AllThe_example =
    do_request-AllThe put (codes "a") (codes "b") 9 three_servers three_rounds (omega arith)
      three_rounds-NoLockHeld

abbrev two_subscribers : Bcast ℕ
two_subscribers = record { net = (31, 1) ∷ (47, 2) ∷ []; nsub = 2 }

two_subscribers-IsValid : IsValid two_subscribers
two_subscribers-IsValid = record { numbered = (refl, (refl, tt)); counted = refl }

abbrev put_b : RequestArgs
put_b = record { client_id = 5; seq = 9; code = put; key = codes "b"; value = codes "1" }

-- A leader with one entry in its log.
abbrev leading : Raft RequestArgs
leading = record (fresh 3 0 none) {
  st = leader;
  term = 2;
  log = some (record { term = 0; cmd = none }) ∷ [];
}

abbrev waiting : Served
waiting = record { rf = leading; b = two_subscribers; shut = [] }

abbrev put_b_started : Started
put_b_started = record { index = pos 1; term = pos 2; is_leader = true }

put_b-start : (rf : Raft RequestArgs) × (start put_b leading ≡ some (rf, put_b_started))
unfolding start accept_command
put_b-start =
    let logged : Raft RequestArgs = record leading {
      log = leading.log ++ some (record { term = 2; cmd = some put_b }) ∷ [];
    } in
    (record (kept logged) { msg_flag = true }, rw (persist-HasLog logged tt) refl)

-- The first random number is taken.
some_number : HasNumber (31 ∷ 60 ∷ []) two_subscribers
some_number = record {
  valid = two_subscribers-IsValid;
  small = omega arith;
  at = 1;
  number = 60;
  there = refl;
  new = refl;
}

request_again-Hears_example :
    Returns
      (request_again (31 ∷ 60 ∷ []) 3 put_b waiting)
      (Serves (31 ∷ 60 ∷ []) 3 put_b waiting put_b-start.0 put_b_started)
request_again-Hears_example =
    request_again-Hears (31 ∷ 60 ∷ []) 3 put_b waiting put_b-start.0 put_b_started some_number
      put_b-start.1 refl

unsub-IsValid_example :
    ((lookup 47 two_subscribers.net ≡ none) × (unsub 47 two_subscribers ≡ none))
    ⊎ ((c : ℕ) × (lookup 47 two_subscribers.net ≡ some c)
        × Returns (unsub 47 two_subscribers) (λ r.
          IsValid r.0
          × (r.1 ≡ c)
          × (lookup 47 r.0.net ≡ none)
          × (suc (length r.0.net) ≡ 2)
          × ((j : ℕ) → j ≢ 47 → lookup j r.0.net ≡ lookup j two_subscribers.net)))
unsub-IsValid_example = unsub-IsValid two_subscribers 47 two_subscribers-IsValid

publish-Waits_example :
    (((k : ℕ) → k < 2 → false ≡ false)
      × ((publish (λ k. false) two_subscribers).sent ≡ map (λ x. x.1) two_subscribers.net)
      × ((publish (λ k. false) two_subscribers).awaited
          ≡ length (publish (λ k. false) two_subscribers).sent))
    ⊎ ((k : ℕ) × (k < 2)
        × (false ≡ true)
        × (length (publish (λ k. false) two_subscribers).sent
            < (publish (λ k. false) two_subscribers).awaited))
publish-Waits_example = publish-Waits (λ k. false) two_subscribers

-- ===== src/Raft/Election.antt =====
-- raft/fns.go: `beCandidate`, `runElection`, the vote counter and `leaderInit`.
pub mod Quorum
pub mod Counted
pub mod Leaders
use pp.Prelude.{
  ℕ, ◌+◌, ◌-◌, ◌/◌, Bool, true, false, ◌||◌, Option, some, length, replicate, ltb, if◌then◌else◌,
  ◌>>=◌,
}
use pp.Prelude.Int.{ℤ, pos, negsuc, minus_one}
use pp.Raft.State.{Role, leader, follower, candidate, Raft, RequestVoteArgs, RequestVoteReply}
use pp.Raft.Log.{last_entry}
use pp.Raft.Persist.{persist, msg_common}

-- `voteCounter`
pub record VoteCounter : Type 0 where
  pub votes : ℕ
  pub killed : Bool

unfoldable pub count_vote : VoteCounter → VoteCounter
count_vote vc = record vc { votes = vc.votes + 1 }

unfoldable pub kill_vote : VoteCounter → VoteCounter
kill_vote vc = record vc { killed = true }

unfoldable pub get_votes : VoteCounter → ℤ
get_votes vc = if vc.killed then minus_one else pos vc.votes

-- What the coordinating thread sees when it looks at the counter.
pub data Outcome : Type 0 where
  lost won waiting : Outcome

abbrev pub is_follower : Role → Bool
is_follower follower = true
is_follower leader = false
is_follower candidate = false

unfoldable pub own_vote : VoteCounter
unfolding count_vote
own_vote = count_vote (record { votes = 0; killed = false })

unfoldable pub count_if : Bool → VoteCounter → VoteCounter
unfolding count_vote
count_if granted vc = if granted then count_vote vc else vc

unfoldable pub wins : ℕ → ℤ → Bool
wins n (pos v) = ltb (n / 2) v
wins n (negsuc v) = false

unfoldable pub is_killed : ℤ → Bool
is_killed (pos v) = false
is_killed (negsuc v) = true

module _ {C : Type 0} where
  unfoldable pub leader_init : Raft C → Raft C
  leader_init rf = record rf {
    at_server = replicate rf.peers 0;
    next_for_server = replicate rf.peers (pos (length rf.log));
  }

  -- One round of `beCandidate`'s loop, up to the call of `runElection`.
  unfoldable pub campaign : Raft C → Option (Raft C)
  campaign rf = persist (record rf { st = candidate; voted_for = pos rf.me; term = rf.term + 1 })

  -- The ballot that `runElection` sends; it counts the candidate's own vote.
  unfoldable pub ballot : Raft C → Option RequestVoteArgs
  ballot rf = do
    e ← last_entry rf.log
    some (record {
      term = rf.term;
      candidate_id = pos rf.me;
      last_log_index = length rf.log - 1;
      last_log_term = e.term;
    })

  -- The reply of one server.
  unfoldable pub count_reply :
      RequestVoteReply → Raft C → VoteCounter → Option (Raft C × VoteCounter)
  unfolding count_if kill_vote
  count_reply reply rf₀ vc = do
    (rf, res) ← msg_common reply.term rf₀
    some (rf, if res then count_if reply.vote_granted vc else kill_vote vc)

  -- One look of the coordinating thread.
  unfoldable pub poll : VoteCounter → Raft C → Raft C × Outcome
  unfolding wins is_killed get_votes leader_init
  poll vc rf =
      let vote_count = get_votes vc in
      if is_killed vote_count || is_follower rf.st
      then (rf, lost)
      else if wins rf.peers vote_count
      then (leader_init (record rf { st = leader }), won)
      else (rf, waiting)

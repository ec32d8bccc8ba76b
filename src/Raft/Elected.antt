-- ===== src/Raft/Elected.antt =====
-- Three servers, and an election that server 0 wins with the vote of server 1.
use pp.Prelude.{ℕ, zero, suc, ◌<◌, ◌≡◌, refl, true, false, none, some, List, [], ◌∷◌, arith}
use pp.Prelude.Int.{pos}
use pp.Raft.State.{Raft, RequestVoteArgs, RequestVoteReply, Saved, candidate, leader}
use pp.Raft.Log.{present, entry_at, last_entry, live_entries}
use pp.Raft.Persist.{fresh, to_save, persist, msg_common}
use pp.Raft.Sound.{IsSound, IsSaved}
use pp.Raft.Vote.{request_vote, other_is_recent}
use pp.Raft.Election.{
  VoteCounter, own_vote, count_if, wins, is_killed, count_vote, campaign, count_reply, poll,
  get_votes, leader_init, won,
}
use pp.Raft.Election.Leaders.{Won, one_leader}
use pp.Raft.Step.{Step, Run, here, next}
use pp.Raft.Step.Ballots.{Vote}

abbrev server : ℕ → Raft ℕ
server j = fresh 3 j none

server-IsSound : (j : ℕ) → IsSound (server j)
server-IsSound j = omega arith

server-IsSaved : (j : ℕ) → IsSaved (server j)
unfolding to_save present
server-IsSaved j = refl

-- Server 0 stands in term 1, and server 1 votes for it.
abbrev first_saved : Saved ℕ
first_saved = record {
  term = 1;
  voted_for = pos 0;
  snapshot_index = 0;
  log = record { term = 0; cmd = none } ∷ [];
  snapshot = [];
}

abbrev standing : Raft ℕ
standing = record (server 0) {
  st = candidate;
  voted_for = pos 0;
  term = 1;
  saved = some first_saved;
}

stands : campaign (server 0) ≡ some standing
unfolding campaign persist live_entries to_save present
stands = refl

abbrev granted : RequestVoteReply
granted = record { term = 1; vote_granted = true }

abbrev ask : RequestVoteArgs
ask = record { term = 1; candidate_id = pos 0; last_log_index = 0; last_log_term = 0 }

abbrev voting : Raft ℕ
voting = record (server 1) { voted_for = pos 0; term = 1; ts = 5; saved = some first_saved }

votes_for : request_vote 5 ask (server 1) ≡ some (voting, granted)
unfolding request_vote msg_common persist live_entries other_is_recent last_entry entry_at
votes_for = refl

abbrev given : ℕ → List Vote
given zero = (1, pos 0) ∷ []
given (suc zero) = (1, pos 0) ∷ []
given (suc (suc j)) = []

abbrev after : ℕ → Raft ℕ
after zero = standing
after (suc zero) = voting
after (suc (suc j)) = server (suc (suc j))

runs :
    (j : ℕ) → j < 3 → IsSound (server j) × IsSaved (server j) × Run (server j) (given j) (after j)
runs zero h = (server-IsSound 0, server-IsSaved 0, next here (Step.stand stands) refl)
runs (suc zero) h = (
  server-IsSound 1,
  server-IsSaved 1,
  next here (Step.vote 5 ask granted (λ e. cc) votes_for) refl,
)
runs (suc (suc j)) h = (server-IsSound (suc (suc j)), server-IsSaved (suc (suc j)), here)

abbrev two_votes : VoteCounter
two_votes = record { votes = 2; killed = false }

counts : count_reply granted standing own_vote ≡ some (standing, two_votes)
unfolding count_reply own_vote count_vote count_if msg_common
counts = refl

abbrev leading : Raft ℕ
leading = record standing {
  st = leader;
  at_server = 0 ∷ 0 ∷ 0 ∷ [];
  next_for_server = pos 1 ∷ pos 1 ∷ pos 1 ∷ [];
}

looks : poll two_votes standing ≡ (leading, won)
unfolding poll get_votes leader_init wins is_killed
looks = refl

elected : Won ℕ 3 given 1 0
elected = record {
  answers = (1, granted) ∷ [];
  counter = two_votes;
  before = standing;
  after = leading;
  peers = refl;
  once = (omega arith, refl, (omega arith, refl, tt));
  own = (0, refl);
  honest = ((λ h. (0, refl)), tt);
  counted = (standing, standing, own_vote, counts, refl);
  looked = looks;
}

one_leader_example : ◌≡◌ {A = ℕ} 0 0
one_leader_example = one_leader 3 1 0 0 server after given runs elected elected

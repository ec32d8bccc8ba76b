-- ===== src/Raft/Step.antt =====
-- raft/raft.go, raft/fns.go: all that can happen to one server, a crash and a restart included.
pub mod Ballots
pub mod Quiet
pub mod Tables
pub mod Logs
pub mod Commits
pub mod Votes
use pp.Prelude.{
  ℕ, ◌≤◌, ◌≡◌, ◌≢◌, Bool, true, false, Option, some, List, [], ◌∷◌, ◌++◌, if◌then◌else◌,
}
use pp.Prelude.Int.{ℤ, pos, minus_one}
use pp.Raft.State.{
  Role, Raft, RequestVoteArgs, RequestVoteReply, AppendEntriesArgs, AppendEntriesReply,
  InstallSnapshotArgs,
}
use pp.Raft.Persist.{make}
use pp.Raft.Vote.{request_vote}
use pp.Raft.Append.{append_entries}
use pp.Raft.Snapshot.{install_snapshot, cond_install_snapshot, snapshot_to}
use pp.Raft.Start.{Started, start}
use pp.Raft.Election.{VoteCounter, Outcome, campaign, count_reply, poll}
use pp.Raft.Heartbeat.{Call, do_heartbeat, handle_append_reply, handle_install_reply}
use pp.Raft.Commit.{rvw_commits}

-- One step of a server, by the code that makes it. A candidate's number is never -1, and the service
-- makes snapshots only of what was applied.
pub data Step {C : Type 0} (rf rf' : Raft C) : Type 0 where
  vote :
      (now : ℕ) (args : RequestVoteArgs) (reply : RequestVoteReply)
      → args.candidate_id ≢ minus_one
      → request_vote now args rf ≡ some (rf', reply)
      → Step rf rf'
  append :
      (now : ℕ) (args : AppendEntriesArgs C) (reply : AppendEntriesReply)
      → append_entries now args rf ≡ some (rf', reply)
      → Step rf rf'
  offer :
      (now : ℕ) (args : InstallSnapshotArgs) (reply : ℕ)
      → install_snapshot now args rf ≡ some (rf', reply)
      → Step rf rf'
  install :
      (term index : ℕ) (snapshot : List ℕ) (done : Bool)
      → cond_install_snapshot term index snapshot rf ≡ some (rf', done)
      → Step rf rf'
  compact :
      (index : ℕ) (snapshot : List ℕ)
      → index ≤ rf.applied_idx
      → snapshot_to index snapshot rf ≡ some rf'
      → Step rf rf'
  command : (cmd : C) (reply : Started) → start cmd rf ≡ some (rf', reply) → Step rf rf'
  stand : campaign rf ≡ some rf' → Step rf rf'
  tally :
      (reply : RequestVoteReply) (vc vc' : VoteCounter)
      → count_reply reply rf vc ≡ some (rf', vc')
      → Step rf rf'
  look : (vc : VoteCounter) (o : Outcome) → poll vc rf ≡ (rf', o) → Step rf rf'
  heartbeat :
      (now : ℕ) (calls : List (Call C)) → do_heartbeat now rf ≡ some (rf', calls) → Step rf rf'
  appended :
      (j : ℕ) (args : AppendEntriesArgs C) (reply : AppendEntriesReply)
      → handle_append_reply j args reply rf ≡ some rf'
      → Step rf rf'
  offered :
      (j : ℕ) (args : InstallSnapshotArgs) (term : ℕ)
      → handle_install_reply j args term rf ≡ some rf'
      → Step rf rf'
  commit : rvw_commits rf ≡ some rf' → Step rf rf'
  restart : make rf.peers rf.me rf.saved ≡ some rf' → Step rf rf'

-- The votes that a step gives, each a term and a candidate.
abbrev pub votes : {C : Type 0} {rf rf' : Raft C} → Step rf rf' → List (ℕ × ℤ)
votes (vote now args reply _ _) =
    if reply.vote_granted then (args.term, args.candidate_id) ∷ [] else []
votes {rf} {rf'} (stand _) = (rf'.term, pos rf.me) ∷ []
votes _ = []

-- A run from `rf`, with the votes that were given in it, the last first.
pub data Run {C : Type 0} (rf : Raft C) : List (ℕ × ℤ) → Raft C → Type 0 where
  here : Run rf [] rf
  next :
      {given : List (ℕ × ℤ)} {s t : Raft C} {all : List (ℕ × ℤ)}
      → Run rf given s
      → (step : Step s t) → all ≡ votes step ++ given
      → Run rf all t

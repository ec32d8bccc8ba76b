-- ===== src/Raft/Tests.antt =====
-- Concrete servers, and the theorems about the consensus module at them.
use pp.Prelude.{ℕ, ◌+◌, ◌-◌, ◌≡◌, refl, true, false, none, some, List, [], ◌∷◌, Returns, arith, ◌⊎◌}
use pp.Prelude.Int.{pos, minus_one}
use pp.Raft.State.{
  leader, Raft, LogEntry, ApplyMsg, RequestVoteArgs, RequestVoteReply, AppendEntriesArgs,
}
use pp.Raft.Log.{present, entry_at, last_entry, live_entries}
use pp.Raft.Persist.{fresh, to_save, kept, make, persist, msg_common}
use pp.Raft.Sound.{IsSound, IsSaved}
use pp.Raft.Vote.{request_vote, other_is_recent}
use pp.Raft.Append.{first_index_for_term, append_entries}
use pp.Raft.Append.First.{IsFirst, IsAbsent, first_index_for_term-IsFirst}
use pp.Raft.Append.Reply.{AppendResult, append_entries-AppendResult}
use pp.Raft.Apply.{apply_outstanding, applied, Carries, apply_outstanding-Carries}
use pp.Raft.Commit.{rvw_commits}
use pp.Raft.Commit.Majority.{Reviewed, rvw_commits-Reviewed}
use pp.Raft.Restart.{Restarted, make-Restarted}
use pp.Raft.Snapshot.{do_install_snapshot}
use pp.Raft.Snapshot.Install.{installed, do_install_snapshot-installed}
use pp.Raft.Step.{Step, Run, here, next}
use pp.Raft.Step.Votes.{Run-one_vote, Run-IsSound}

-- A server that has just started.
abbrev idle : Raft ℕ
idle = fresh 3 1 none

abbrev origin : LogEntry ℕ
origin = record { term = 0; cmd = none }

abbrev command_of : ℕ → ℕ → LogEntry ℕ
command_of t c = record { term = t; cmd = some c }

-- Server 0 asks for its vote in term 1, and asks again.
abbrev ask : RequestVoteArgs
ask = record { term = 1; candidate_id = pos 0; last_log_index = 0; last_log_term = 0 }

abbrev granted : RequestVoteReply
granted = record { term = 1; vote_granted = true }

abbrev voter : ℕ → Raft ℕ
voter now = record idle {
  term = 1;
  voted_for = pos 0;
  ts = now;
  saved = some (record {
    term = 1;
    voted_for = pos 0;
    snapshot_index = 0;
    log = origin ∷ [];
    snapshot = [];
  });
}

first_vote : request_vote 5 ask idle ≡ some (voter 5, granted)
unfolding request_vote msg_common persist live_entries other_is_recent last_entry entry_at
first_vote = refl

second_vote : request_vote 7 ask (voter 5) ≡ some (voter 7, granted)
unfolding request_vote msg_common persist live_entries other_is_recent last_entry entry_at
second_vote = refl

idle-IsSound : IsSound idle
idle-IsSound = omega arith

idle-IsSaved : IsSaved idle
unfolding to_save present
idle-IsSaved = refl

-- It votes, crashes after the second vote and starts again.
voter-Run : Run idle ((1, pos 0) ∷ (1, pos 0) ∷ []) (voter 7)
voter-Run =
    next (next here (Step.vote 5 ask granted (λ e. cc) first_vote) refl)
      (Step.vote 7 ask granted (λ e. cc) second_vote) refl

Run-one_vote_example : pos 0 ≡ pos 0
Run-one_vote_example =
    Run-one_vote 0 1 1 (pos 0) (pos 0) idle-IsSound idle-IsSaved voter-Run refl refl

Run-IsSound_example : IsSound (voter 7) × IsSaved (voter 7)
Run-IsSound_example = Run-IsSound idle-IsSound idle-IsSaved voter-Run

-- A follower with a log of three entries, the last of which another leader wrote.
abbrev follows : Raft ℕ
follows = record idle {
  term = 2;
  log = some origin ∷ some (command_of 1 10) ∷ some (command_of 2 99) ∷ [];
}

abbrev entries_from_leader : AppendEntriesArgs ℕ
entries_from_leader = record {
  term = 3;
  leader_id = 0;
  last_log_index = 1;
  last_log_term = 1;
  entries = command_of 3 11 ∷ command_of 3 12 ∷ [];
  leader_commit_idx = 2;
}

append_entries-AppendResult_example :
    Returns
      (append_entries 9 entries_from_leader follows)
      (AppendResult entries_from_leader follows)
append_entries-AppendResult_example =
    append_entries-AppendResult 9 entries_from_leader follows (omega arith)

make-Restarted_example : Returns (make 3 1 (kept follows).saved) (Restarted (kept follows))
unfolding to_save
make-Restarted_example = make-Restarted 3 1 (kept follows) (omega arith) refl

do_install_snapshot-installed_example :
    do_install_snapshot 1 1 (7 ∷ []) false follows
    ≡ some (kept (installed 1 1 (7 ∷ []) false follows))
do_install_snapshot-installed_example =
    do_install_snapshot-installed 1 1 (7 ∷ []) false follows (omega arith) (omega arith)

abbrev commits : Raft ℕ
commits = record follows { commit_idx = 2 }

apply_outstanding-Carries_example :
    (ms : List (ApplyMsg ℕ)) × (apply_outstanding commits ≡ some (applied commits ms))
    × Carries commits.log (0 + 1) (2 - 0) ms
apply_outstanding-Carries_example =
    apply_outstanding-Carries commits (omega arith) (omega arith) (omega arith)

first_index_for_term-IsFirst_example :
    ((k : ℕ) × (first_index_for_term (pos 2) follows.log ≡ pos k) × IsFirst (pos 2) follows.log k)
    ⊎ ((first_index_for_term (pos 2) follows.log ≡ minus_one) × IsAbsent (pos 2) follows.log)
first_index_for_term-IsFirst_example = first_index_for_term-IsFirst (pos 2) follows.log

-- Two of three servers have the entry at index 2, which is of the current term.
abbrev leads : Raft ℕ
leads = record follows { term = 2; st = leader; at_server = 1 ∷ 2 ∷ 2 ∷ [] }

rvw_commits-Reviewed_example : Returns (rvw_commits leads) (Reviewed leads)
rvw_commits-Reviewed_example = rvw_commits-Reviewed leads (omega arith) (omega arith) (omega arith)

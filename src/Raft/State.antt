-- ===== src/Raft/State.antt =====
-- raft/raft.go: the types, and the state of one server.
use pp.Prelude.{ℕ, Bool, Option, List}
use pp.Prelude.Int.{ℤ}

pub data Role : Type 0 where
  leader follower candidate : Role

pub record LogEntry (C : Type 0) : Type 0 where
  pub term : ℕ
  pub cmd : Option C

-- What `persist` writes: the log from the snapshot's index on, which holds no nil entry.
pub record Saved (C : Type 0) : Type 0 where
  pub term : ℕ
  pub voted_for : ℤ
  pub snapshot_index : ℕ
  pub log : List (LogEntry C)
  pub snapshot : List ℕ

-- `cmd` is `none` in the entries that the code makes with no command (`&LogEntry{}`).
-- A message for the service: a committed command, or a snapshot to consider.
pub data ApplyMsg (C : Type 0) : Type 0 where
  command : (index : ℕ) → Option C → ApplyMsg C
  install : (data_ : List ℕ) (term index : ℕ) → ApplyMsg C

-- The fields that the handlers read and write. `peers` is the number of servers; `disam` is what
-- was sent on the channel of that name, the oldest first; `saved` is what the persister holds. An
-- entry `none` of the log is a nil pointer: it was given up for a snapshot.
pub record Raft (C : Type 0) : Type 0 where
  pub peers : ℕ
  pub me : ℕ
  pub term : ℕ
  pub voted_for : ℤ
  pub st : Role
  pub ts : ℕ
  pub log : List (Option (LogEntry C))
  pub commit_idx : ℕ
  pub applied_idx : ℕ
  pub disam : List (ApplyMsg C)
  pub next_for_server : List ℤ
  pub at_server : List ℕ
  pub msg_flag : Bool
  pub snapshot : List ℕ
  pub snapshot_index : ℕ
  pub saved : Option (Saved C)

pub record RequestVoteArgs : Type 0 where
  pub term : ℕ
  pub candidate_id : ℤ
  pub last_log_index : ℕ
  pub last_log_term : ℕ

pub record RequestVoteReply : Type 0 where
  pub term : ℕ
  pub vote_granted : Bool

pub record AppendEntriesArgs (C : Type 0) : Type 0 where
  pub term : ℕ
  pub leader_id : ℕ
  pub last_log_index : ℕ
  pub last_log_term : ℕ
  pub entries : List (LogEntry C)
  pub leader_commit_idx : ℕ

pub record AppendEntriesReply : Type 0 where
  pub term : ℕ
  pub success : Bool
  pub x_term : ℤ
  pub x_index : ℤ
  pub x_len : ℤ

pub record InstallSnapshotArgs : Type 0 where
  pub term : ℕ
  pub leader_id : ℕ
  pub last_included_index : ℕ
  pub last_included_term : ℕ
  pub bytes : List ℕ

-- ===== src/Raft.antt =====
-- The consensus module: raft/raft.go and raft/fns.go.
pub mod State
pub mod Log
pub mod Nils
pub mod Persist
pub mod Vote
pub mod Sound
pub mod Apply
pub mod Append
pub mod Snapshot
pub mod Start
pub mod Restart
pub mod Election
pub mod Elected
pub mod Heartbeat
pub mod Commit
pub mod Step
pub mod Tests

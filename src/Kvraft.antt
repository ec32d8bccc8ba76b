-- ===== src/Kvraft.antt =====
-- The key-value service: kvraft/server.go, kvraft/snapshot.go and kvraft/common.go.
pub mod State
pub mod Lock
pub mod Command
pub mod Snapshots
pub mod Reply
pub mod Waiting
pub mod Client
pub mod Broadcast
pub mod Runs
pub mod Tests

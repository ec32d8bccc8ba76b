-- ===== src/Jrnl.antt =====
-- The journal: jrnl/dat.go, jrnl/parse.go, jrnl/txn.go, jrnl/replay.go and jrnl/sb.go.
pub mod Blocks
pub mod RoundTrip
pub mod Txn
pub mod Replay
pub mod Close
pub mod Setup
pub mod Tests
pub mod Runs

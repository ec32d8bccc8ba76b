-- ===== src/Kvraft/Snapshots/Kept.antt =====
-- kvraft/snapshot.go: what a snapshot keeps, a restart pulls.
use pp.Prelude.{ℕ, ◌≤◌, ◌≡◌, false, Option, some, List, Returns}
use pp.Raft.State.{LogEntry, Raft}
use pp.Raft.Log.{entry_at}
use pp.Raft.Persist.{HasLog, kept, to_save}
use pp.Raft.Snapshot.{snapshot_to}
use pp.Raft.Snapshot.Install.{installed, do_install_snapshot-installed}
use pp.Kvraft.State.{RequestArgs, Snapshot, KvServer}
use pp.Kvraft.Snapshots.{take_snapshot, pull_latest_snapshot, pulled}

snapshot_to-some :
    (index : ℕ) (b : List ℕ) (rf : Raft RequestArgs) (e : LogEntry RequestArgs)
    → HasLog rf
    → rf.snapshot_index ≤ index
    → entry_at rf.log index ≡ some e
    → snapshot_to index b rf ≡ some (kept (installed index e.term b false rf))
unfolding snapshot_to
snapshot_to-some index b rf e h le at =
    rw at (do_install_snapshot-installed index e.term b false rf h le)

-- Where the encoder gives bytes that the decoder reads back, the log is whole from the last snapshot on, and the last
-- command applied is in it and not behind that snapshot, taking a snapshot does not fail, and a service that restarts from
-- the resulting disk has the maps as they were.
pub take_snapshot-pulled :
    (encode : Snapshot → Option (List ℕ)) (decode : List ℕ → Option Snapshot) (kv fresh : KvServer)
    (rf : Raft RequestArgs) (b : List ℕ) (e : LogEntry RequestArgs)
    → encode kv.maps ≡ some b
    → decode b ≡ some kv.maps
    → HasLog rf
    → rf.snapshot_index ≤ kv.topidx
    → entry_at rf.log kv.topidx ≡ some e
    → Returns (take_snapshot encode decode kv rf) (λ rf'.
      pull_latest_snapshot encode decode rf'.saved fresh ≡ record fresh { maps = kv.maps })
unfolding take_snapshot pull_latest_snapshot pulled to_save
take_snapshot-pulled encode decode kv fresh rf b e enc dec h le at = (
  kept (installed kv.topidx e.term b false rf),
  rw enc (snapshot_to-some kv.topidx b rf e h le at),
  rw dec,
)

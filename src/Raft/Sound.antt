-- ===== src/Raft/Sound.antt =====
-- raft/raft.go: what every handler keeps of a server's state, and what a restart finds on disk.
use pp.Prelude.{◌≤◌, ◌≡◌, Option, none, some, [], ◌∷◌}
use pp.Prelude.Int.{minus_one}
use pp.Raft.State.{Saved, Raft}
use pp.Raft.Persist.{to_save, HasLog}

-- What a server that finds no file starts from.
abbrev pub nothing_saved : (C : Type 0) → Saved C
nothing_saved C = record {
  term = 0;
  voted_for = minus_one;
  snapshot_index = 0;
  log = record { term = 0; cmd = none } ∷ [];
  snapshot = [];
}

abbrev pub on_disk : {C : Type 0} → Option (Saved C) → Saved C
on_disk {C} none = nothing_saved C
on_disk (some d) = d

module _ {C : Type 0} where
  -- The log is nil below the snapshot's index and whole from there on; what the snapshot stands for
  -- is committed, and all that is committed is applied.
  pub record IsSound (rf : Raft C) : Type 0 where
    pub log : HasLog rf
    pub committed : rf.snapshot_index ≤ rf.commit_idx
    pub applied : rf.applied_idx ≡ rf.commit_idx

  -- The persister holds the current term, vote, log and snapshot.
  abbrev pub IsSaved : Raft C → Type 0
  IsSaved rf = on_disk rf.saved ≡ to_save rf

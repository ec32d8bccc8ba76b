-- ===== src/Raft/Persist.antt =====
-- raft/raft.go: `persist`, `readPersist`, the initial state of `Make`; raft/fns.go: `msgCommon`.
use pp.Prelude.{
  ℕ, ◌-◌, ◌≤◌, ◌≡◌, Bool, true, false, not, Option, none, some, [], ◌∷◌, ◌++◌, map, arith, length,
  drop, get_elem?, replicate, ltb, leb, if◌then◌else◌, ◌>>=◌, ◌>>◌, guard, le→leb,
}
use pp.Prelude.Int.{minus_one}
use pp.Raft.State.{follower, LogEntry, Saved, Raft}
use pp.Raft.Log.{
  live_entries, present, IsTrimmed, IsTrimmed-length, IsTrimmed-drop, live_entries-IsLive,
}

module _ {C : Type 0} where
  -- `rf.log[rf.snapshotIndex:]` panics past the end of the log, and a nil entry cannot be encoded.
  unfoldable pub persist : Raft C → Option (Raft C)
  persist rf = do
    guard (leb rf.snapshot_index (length rf.log))
    entries ← live_entries (drop rf.snapshot_index rf.log)
    some (record rf {
      saved = some (record {
        term = rf.term;
        voted_for = rf.voted_for;
        snapshot_index = rf.snapshot_index;
        log = entries;
        snapshot = rf.snapshot;
      });
    })

  -- What a sound state persists.
  unfoldable pub to_save : Raft C → Saved C
  to_save rf = record {
    term = rf.term;
    voted_for = rf.voted_for;
    snapshot_index = rf.snapshot_index;
    log = present (drop rf.snapshot_index rf.log);
    snapshot = rf.snapshot;
  }

  abbrev pub kept : Raft C → Raft C
  kept rf = record rf { saved = some (to_save rf) }

  abbrev pub is_nil : Option (Option (LogEntry C)) → Option Bool
  is_nil none = none
  is_nil (some none) = some true
  is_nil (some (some e)) = some false

  -- `none` as data is the empty file; a fault is a `log.Fatal` or an index out of range.
  unfoldable pub read_persist : Option (Saved C) → Raft C → Option (Raft C)
  read_persist none rf = some rf
  read_persist (some d) rf = do
    let log = replicate d.snapshot_index none ++ map some d.log
    below ←
        (if ltb 0 d.snapshot_index
          then is_nil (get_elem? log (d.snapshot_index - 1))
          else some true)
    guard below
    at ← is_nil (get_elem? log d.snapshot_index)
    guard (not at)
    some (record rf {
      term = d.term;
      voted_for = d.voted_for;
      snapshot_index = d.snapshot_index;
      log = log;
      snapshot = d.snapshot;
      commit_idx = d.snapshot_index;
      applied_idx = d.snapshot_index;
    })

  -- The state that `Make` sets up, before it reads what was persisted.
  abbrev pub fresh : ℕ → ℕ → Option (Saved C) → Raft C
  fresh peers me saved = record {
    peers = peers;
    me = me;
    term = 0;
    voted_for = minus_one;
    st = follower;
    ts = 0;
    log = some (record { term = 0; cmd = none }) ∷ [];
    commit_idx = 0;
    applied_idx = 0;
    disam = [];
    next_for_server = [];
    at_server = [];
    msg_flag = false;
    snapshot = [];
    snapshot_index = 0;
    saved = saved;
  }

  unfoldable pub make : ℕ → ℕ → Option (Saved C) → Option (Raft C)
  make peers me saved = read_persist saved (fresh peers me saved)

  -- A message of a later term makes a follower of the server; `false` says that it did.
  unfoldable pub msg_common : ℕ → Raft C → Option (Raft C × Bool)
  msg_common msg_term rf =
      if ltb rf.term msg_term
      then (do
        rf' ← persist (record rf { term = msg_term })
        some (record rf' { st = follower }, false))
      else some (rf, true)

module _ {C : Type 0} where
  -- The log is nil below the snapshot's index and has entries from there on.
  abbrev pub HasLog : Raft C → Type 0
  HasLog rf = IsTrimmed rf.snapshot_index rf.log

  -- With such a log `persist` does not fail, and saves the state.
  pub persist-HasLog : (rf : Raft C) → HasLog rf → persist rf ≡ some (kept rf)
  unfolding persist to_save
  persist-HasLog rf h =
      let lt = IsTrimmed-length rf.snapshot_index rf.log h in
      let le : rf.snapshot_index ≤ length rf.log = omega arith in
      simp (
        le→leb _ _ le,
        live_entries-IsLive (drop rf.snapshot_index rf.log)
            (IsTrimmed-drop rf.snapshot_index rf.log h),
      )

  -- The state after `msgCommon`.
  unfoldable pub joined : ℕ → Raft C → Raft C
  joined t rf =
      if ltb rf.term t then record (kept (record rf { term = t })) { st = follower } else rf

  pub msg_common-HasLog :
      (t : ℕ) (rf : Raft C) → HasLog rf → msg_common t rf ≡ some (joined t rf, not (ltb rf.term t))
  unfolding msg_common joined
  msg_common-HasLog t rf h = ground (arith, persist-HasLog (record rf { term = t }) h)

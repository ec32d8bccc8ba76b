-- ===== src/Raft/Snapshot/Install.antt =====
-- raft/fns.go: the log and the state after `doInstallSnapshot`.
use mathlib.Core.List.{append-nil}
use pp.Prelude.{
  ℕ, zero, suc, ◌+◌, ◌-◌, ◌≤◌, ◌<◌, ◌≡◌, refl, sym, ap, ◌∙◌, ==_iff, Bool, true, false, none, some,
  List, [], ◌∷◌, ◌++◌, length, ltb, drop, arith, ◌==◌, if◌then◌else◌, drop-drop,
}
use pp.Raft.State.{LogEntry, Raft}
use pp.Raft.Log.{entry_at-below, Slots, IsLive, IsTrimmed, IsTrimmed-length, IsTrimmed-drop}
use pp.Raft.Nils.{
  nils, nils-suc, set-nils, entry_at-nils, length-nils, IsTrimmed-nils, nils-IsTrimmed, IsLive-drop,
}
use pp.Raft.Persist.{kept, HasLog, persist-HasLog}
use pp.Raft.Snapshot.{clear_at, clear, mark, move_commit, do_install_snapshot}

module _ {C : Type 0} where
  clear_at-nils : (i : ℕ) (r : Slots C) → clear_at i (nils i ++ r) ≡ some (nils (suc i) ++ drop 1 r)
  unfolding clear_at
  clear_at-nils i [] =
      let e : length (nils {C = C} i ++ []) ≡ i = omega (arith, length-nils i []) in
      let long : (length (nils i ++ []) == i) ≡ true = (==_iff _ _).1 e in
      rw long (ap some (ap (λ l. l ++ none ∷ []) (append-nil (nils i)) ∙ nils-suc i []))
  clear_at-nils i (x ∷ r) =
      let e = length-nils i (x ∷ r) in
      let long : (length (nils i ++ x ∷ r) == i) ≡ false = ground arith in
      let short : ltb i (length (nils i ++ x ∷ r)) ≡ true = ground arith in
      rw (long, short) (ap some (set-nils i x none r ∙ nils-suc i r))

  clear-nils : (n i : ℕ) (r : Slots C) → clear n i (nils i ++ r) ≡ some (nils (i + n) ++ drop n r)
  unfolding clear
  clear-nils zero i r = let q : i + 0 ≡ i = omega arith in rw q
  clear-nils (suc n) i r =
      let q : i + suc n ≡ suc i + n = omega arith in
      rw (clear_at-nils i r, clear-nils n (suc i) (drop 1 r), q, drop-drop n 1 r)
        (let k : 1 + n ≡ suc n = omega arith in rw k)

  -- The entry that marks the snapshot's index, made of what the log had from there on.
  abbrev pub marked : ℕ → Slots C → LogEntry C
  marked term (some e ∷ r) = record e { term = term }
  marked term _ = record { term = term; cmd = none }

  mark-nils :
      (index term : ℕ) (r : Slots C)
      → IsLive r
      → mark index term (nils index ++ r) ≡ some (nils index ++ some (marked term r) ∷ drop 1 r)
  unfolding mark
  mark-nils index term [] h =
      let e : length (nils {C = C} index ++ []) ≡ index = omega (arith, length-nils index []) in
      let long : (length (nils index ++ []) == index) ≡ true = (==_iff _ _).1 e in
      rw long (
        ap (λ (l : Slots C). some (l ++ some (record { term = term; cmd = none }) ∷ []))
          (append-nil (nils index)))
  mark-nils index term (none ∷ r) h = absurd h
  mark-nils index term (some e ∷ r) h =
      let k = length-nils index (some e ∷ r) in
      let long : (length (nils index ++ some e ∷ r) == index) ≡ false = ground arith in
      rw (long, entry_at-nils index (some e) r)
        (ap some (set-nils index (some e) (some (record e { term = term })) r))

  -- The log that a snapshot at `index` leaves: nil below it, the marking entry, and the rest of the
  -- old log.
  abbrev pub trimmed : ℕ → ℕ → Slots C → Slots C
  trimmed index term log = nils index ++ some (marked term (drop index log)) ∷ drop (suc index) log

  drop-IsLive : (n s : ℕ) (log : Slots C) → IsTrimmed s log → s ≤ n → IsLive (drop n log)
  drop-IsLive n s log h le =
      let q : s + (n - s) ≡ n = omega arith in
      rw q at (
        rw (drop-drop (n - s) s log) at (IsLive-drop (n - s) (drop s log) (IsTrimmed-drop s log h)))

  pub trimmed-IsTrimmed :
      (index term s : ℕ) (log : Slots C)
      → IsTrimmed s log
      → s ≤ index
      → IsTrimmed index (trimmed index term log)
  trimmed-IsTrimmed index term s log h le =
      nils-IsTrimmed index _ _ (drop-IsLive (suc index) s log h (omega arith))

  clear-IsTrimmed :
      (index s : ℕ) (log : Slots C)
      → IsTrimmed s log
      → s ≤ index
      → clear (index - s) s log ≡ some (nils index ++ drop index log)
  clear-IsTrimmed index s log h le =
      let q : s + (index - s) ≡ index = omega arith in
      let whole = IsTrimmed-nils s log h in
      ap (clear (index - s) s) (sym whole)
      ∙ clear-nils (index - s) s (drop s log)
      ∙ rw (drop-drop (index - s) s log, q)

  mark-trimmed :
      (index term s : ℕ) (log : Slots C)
      → IsTrimmed s log
      → s ≤ index
      → mark index term (nils index ++ drop index log) ≡ some (trimmed index term log)
  mark-trimmed index term s log h le =
      let q : index + 1 ≡ suc index = omega arith in
      mark-nils index term (drop index log) (drop-IsLive index s log h le)
      ∙ rw (drop-drop 1 index log, q)

  -- The state after a snapshot.
  abbrev pub installed : ℕ → ℕ → List ℕ → Bool → Raft C → Raft C
  installed index term snapshot change rf = record rf {
    log = trimmed index term rf.log;
    snapshot = snapshot;
    snapshot_index = index;
    commit_idx = if change then index else rf.commit_idx;
    applied_idx = if change then index else rf.applied_idx;
  }

  move_commit-if :
      (index : ℕ) (change : Bool) (rf : Raft C)
      → move_commit index change rf ≡ record rf {
        commit_idx = if change then index else rf.commit_idx;
        applied_idx = if change then index else rf.applied_idx;
      }
  unfolding move_commit
  move_commit-if index true rf = refl
  move_commit-if index false rf = refl

  -- With a sound log, and an index that is not behind the last snapshot's, `doInstallSnapshot`
  -- does not fail. Every entry below the index is given up, the entry at the index takes the
  -- snapshot's term, the entries behind it stay, and the new state is on disk.
  pub do_install_snapshot-installed :
      (index term : ℕ) (snapshot : List ℕ) (change : Bool) (rf : Raft C)
      → HasLog rf
      → rf.snapshot_index ≤ index
      → do_install_snapshot index term snapshot change rf
        ≡ some (kept (installed index term snapshot change rf))
  unfolding do_install_snapshot
  do_install_snapshot-installed index term snapshot change rf h le =
      rw
        (
          clear-IsTrimmed index rf.snapshot_index rf.log h le,
          mark-trimmed index term rf.snapshot_index rf.log h le,
          move_commit-if,
        )
        (persist-HasLog (installed index term snapshot change rf)
          (trimmed-IsTrimmed index term rf.snapshot_index rf.log h le))

  -- A snapshot behind the last one stops the process: the entry at its index is a nil pointer.
  pub do_install_snapshot-behind :
      (index term : ℕ) (snapshot : List ℕ) (change : Bool) (rf : Raft C)
      → HasLog rf
      → index < rf.snapshot_index
      → do_install_snapshot index term snapshot change rf ≡ none
  unfolding do_install_snapshot
  do_install_snapshot-behind index term snapshot change rf h lt =
      let q : index - rf.snapshot_index ≡ 0 = omega arith in
      let len = IsTrimmed-length rf.snapshot_index rf.log h in
      let short : (length rf.log == index) ≡ false = ground arith in
      rw (q, short, entry_at-below rf.snapshot_index rf.log index h lt)

-- ===== src/Raft/Restart.antt =====
-- raft/raft.go: a crash and a restart. `Make` reads back what `persist` wrote.
use pp.Prelude.{
  ℕ, zero, suc, ◌-◌, ◌≡◌, refl, sym, ap, subst, ◌∙◌, true, Option, none, some, List, [], ◌∷◌, ◌++◌,
  map, get_elem?, drop, ltb, arith, if◌then◌else◌, Returns, Bool-cases, inl, inr, ltb→lt,
}
use pp.Raft.State.{LogEntry, Raft, Saved, follower}
use pp.Raft.Log.{Slots, IsTrimmed, IsTrimmed-drop, present, map-some-present}
use pp.Raft.Nils.{nils, IsTrimmed-nils, get_elem?-nils_at, get_elem?-nils_below}
use pp.Raft.Persist.{to_save, read_persist, is_nil, fresh, make}
use pp.Raft.Sound.{IsSound, IsSaved, on_disk}

module _ {C : Type 0} where
  -- A state that was read from disk.
  abbrev read_from : Saved C → Raft C → Raft C
  read_from d rf = record rf {
    term = d.term;
    voted_for = d.voted_for;
    snapshot_index = d.snapshot_index;
    log = nils d.snapshot_index ++ map some d.log;
    snapshot = d.snapshot;
    commit_idx = d.snapshot_index;
    applied_idx = d.snapshot_index;
  }

  below_nil :
      (n : ℕ) (r : Slots C)
      → (if ltb 0 n then is_nil (get_elem? (nils n ++ r) (n - 1)) else some true) ≡ some true
  below_nil n r = elim (Bool-cases (ltb 0 n)) [
    | inl p ↦ let lt = ltb→lt _ _ p in rw (p, get_elem?-nils_below (n - 1) n r (omega arith))
    | inr z ↦ rw z
  ]

  -- Reading what holds at least one entry does not fail.
  read_persist-read_from :
      (d : Saved C) (e : LogEntry C) (es : List (LogEntry C)) (rf : Raft C)
      → d.log ≡ e ∷ es
      → read_persist (some d) rf ≡ some (read_from d rf)
  unfolding read_persist
  read_persist-read_from d e es rf p =
      let slot : get_elem? (nils d.snapshot_index ++ map some d.log) d.snapshot_index
          ≡ some (some e) =
        rw p (get_elem?-nils_at d.snapshot_index (some e) (map some es)) in
      rw (below_nil d.snapshot_index (map some d.log), slot)

  first_present :
      (s : ℕ) (log : Slots C)
      → IsTrimmed s log
      → (e : LogEntry C) × (es : List (LogEntry C)) × (present (drop s log) ≡ e ∷ es)
  unfolding present
  first_present s [] h = absurd h
  first_present zero (none ∷ xs) h = absurd h
  first_present zero (some e ∷ xs) h = (e, present xs, refl)
  first_present (suc s) (none ∷ xs) h = first_present s xs h
  first_present (suc s) (some e ∷ xs) h = absurd h

  reread :
      (s : ℕ) (log : Slots C) → IsTrimmed s log → nils s ++ map some (present (drop s log)) ≡ log
  reread s log h =
      ap (λ r. nils s ++ r) (map-some-present (drop s log) (IsTrimmed-drop s log h))
      ∙ IsTrimmed-nils s log h

  -- The state that a restart comes up with, beside that of the server that crashed.
  pub record Restarted (rf r : Raft C) : Type 0 where
    pub term : r.term ≡ rf.term
    pub voted_for : r.voted_for ≡ rf.voted_for
    pub log : r.log ≡ rf.log
    pub snapshot : r.snapshot ≡ rf.snapshot
    pub snapshot_index : r.snapshot_index ≡ rf.snapshot_index
    pub commit_idx : r.commit_idx ≡ rf.snapshot_index
    pub applied_idx : r.applied_idx ≡ rf.snapshot_index
    pub st : r.st ≡ follower
    pub sound : IsSound r
    pub on_disk : IsSaved r

  -- What `make` does with a file that holds `d`, and with no file, is to read `on_disk`.
  make-on_disk :
      (peers me : ℕ) (saved : Option (Saved C)) (e : LogEntry C) (es : List (LogEntry C))
      → (on_disk saved).log ≡ e ∷ es
      → make peers me saved ≡ some (read_from (on_disk saved) (fresh peers me saved))
  unfolding make read_persist
  make-on_disk peers me none e es p = refl
  make-on_disk peers me (some d) e es p = read_persist-read_from d e es (fresh peers me (some d)) p

  read_from-Restarted :
      (peers me : ℕ) (rf : Raft C)
      → IsSound rf
      → IsSaved rf
      → Restarted rf (read_from (to_save rf) (fresh peers me rf.saved))
  unfolding to_save
  read_from-Restarted peers me rf s k =
      let log : nils rf.snapshot_index ++ map some (present (drop rf.snapshot_index rf.log))
          ≡ rf.log =
        reread rf.snapshot_index rf.log s.log in
      record {
        term = refl;
        voted_for = refl;
        log = log;
        snapshot = refl;
        snapshot_index = refl;
        commit_idx = refl;
        applied_idx = refl;
        st = refl;
        sound = record { log = rw log s.log; committed = omega arith; applied = refl };
        on_disk = rw log k;
      }

  -- A server whose log is whole from its snapshot on and whose indexes are consistent, and that crashes with its disk
  -- current, and starts again, has the term, the vote, the log
  -- and the snapshot that it had; it is a follower, takes only what the snapshot stands for as
  -- committed and applied, and is sound.
  pub make-Restarted :
      (peers me : ℕ) (rf : Raft C)
      → IsSound rf
      → IsSaved rf
      → Returns (make peers me rf.saved) (Restarted rf)
  unfolding to_save
  make-Restarted peers me rf s k =
      let (e, es, p) = first_present rf.snapshot_index rf.log s.log in
      let q : (on_disk rf.saved).log ≡ e ∷ es = ap (λ (d : Saved C). d.log) k ∙ p in
      (
        _,
        make-on_disk peers me rf.saved e es q,
        subst (λ d. Restarted rf (read_from d (fresh peers me rf.saved))) (sym k)
            (read_from-Restarted peers me rf s k),
      )

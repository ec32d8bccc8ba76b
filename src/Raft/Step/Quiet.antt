-- ===== src/Raft/Step/Quiet.antt =====
-- raft/raft.go, raft/fns.go: steps that give no vote and keep the log.
use pp.Prelude.{ℕ, ◌≤◌, ◌≡◌, refl, ap, subst, ◌∙◌, some-cancel, Option, some, arith}
use pp.Raft.State.{Raft}
use pp.Raft.Persist.{to_save, joined}
use pp.Raft.Sound.{IsSound, IsSaved}

module _ {C : Type 0} where
  -- The step leaves the vote alone and keeps what every handler keeps.
  pub record Quiet (rf rf' : Raft C) : Type 0 where
    pub sound : IsSound rf → IsSound rf'
    pub on_disk : IsSaved rf → IsSaved rf'
    pub term : rf.term ≤ rf'.term
    pub voted_for : rf'.voted_for ≡ rf.voted_for

  pub Quiet-trans : {a b c : Raft C} → Quiet a b → Quiet b c → Quiet a c
  Quiet-trans h k = record {
    sound = λ s. k.sound (h.sound s);
    on_disk = λ s. k.on_disk (h.on_disk s);
    term = omega (arith, h.term, k.term);
    voted_for = k.voted_for ∙ h.voted_for;
  }

  pub Quiet-refl : (rf : Raft C) → Quiet rf rf
  Quiet-refl rf = record { sound = λ s. s; on_disk = λ s. s; term = omega arith; voted_for = refl }

  -- All but the tables of the leader, the role and the clock is as before.
  pub record SameCore (rf rf' : Raft C) : Type 0 where
    pub term : rf'.term ≡ rf.term
    pub voted_for : rf'.voted_for ≡ rf.voted_for
    pub log : rf'.log ≡ rf.log
    pub commit_idx : rf'.commit_idx ≡ rf.commit_idx
    pub applied_idx : rf'.applied_idx ≡ rf.applied_idx
    pub snapshot : rf'.snapshot ≡ rf.snapshot
    pub snapshot_index : rf'.snapshot_index ≡ rf.snapshot_index
    pub saved : rf'.saved ≡ rf.saved

  pub SameCore-Quiet : {rf rf' : Raft C} → SameCore rf rf' → Quiet rf rf'
  unfolding to_save
  SameCore-Quiet {rf} {rf'} c = record {
    sound = λ s. record {
      log = rw (c.log, c.snapshot_index) s.log;
      committed = rw (c.commit_idx, c.snapshot_index) s.committed;
      applied = rw (c.commit_idx, c.applied_idx) s.applied;
    };
    on_disk = λ s. rw (c.saved, c.term, c.voted_for, c.snapshot_index, c.log, c.snapshot) s;
    term = omega (arith, c.term);
    voted_for = c.voted_for;
  }

  pub joined-Quiet : (t : ℕ) (rf : Raft C) → Quiet rf (joined t rf)
  unfolding joined to_save
  joined-Quiet t rf = record {
    sound = λ s. ground (arith, s.log, s.committed, s.applied);
    on_disk = λ s. ground arith;
    term = ground arith;
    voted_for = ground arith;
  }

  pub becomes : {rf a b : Raft C} → Quiet rf a → some a ≡ some b → Quiet rf b
  becomes {rf} q e = subst (λ r. Quiet rf r) (some-cancel e) q

  pub first_of_pair :
      {X : Type 0} {a b : Raft C} {x y : X}
      → ◌≡◌ {A = Option (Raft C × X)} (some (a, x)) (some (b, y))
      → some a ≡ some b
  first_of_pair {X} e = ap some (ap (λ (p : Raft C × X). p.0) (some-cancel e))

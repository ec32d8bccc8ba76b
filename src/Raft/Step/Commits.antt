-- ===== src/Raft/Step/Commits.antt =====
-- raft/fns.go: a round of `rvwCommits`.
use pp.Prelude.{
  ℕ, ◌+◌, ◌-◌, ◌<◌, ◌≡◌, refl, sym, ◌∙◌, Bool, true, false, some, List, ltb, >>=-eq-some,
  some-cancel, Bool-cases, inl, inr, arith, ltb→lt, ==_iff,
}
use pp.Raft.State.{Raft, LogEntry, ApplyMsg}
use pp.Raft.Log.{entry_at, entry-IsTrimmed}
use pp.Raft.Persist.{to_save}
use pp.Raft.Sound.{IsSound}
use pp.Raft.Apply.{applied, apply_outstanding-Carries, Carries}
use pp.Raft.Start.{is_leader}
use pp.Raft.Commit.{median, may_commit, commit_to, review, rvw_commits}
use pp.Raft.Step.Quiet.{Quiet, Quiet-refl, becomes}

module _ {C : Type 0} where
  -- A median that may be committed is past the commit index, and its entry is of the current term.
  pub record MayCommit (m : ℕ) (rf : Raft C) : Type 0 where
    pub entry : LogEntry C
    pub at : entry_at rf.log m ≡ some entry
    pub ahead : rf.commit_idx < m
    pub current : rf.term ≡ entry.term

  pub may_commit-MayCommit : (m : ℕ) (rf : Raft C) → may_commit m rf ≡ some true → MayCommit m rf
  unfolding may_commit
  may_commit-MayCommit m rf h = elim (Bool-cases (ltb rf.commit_idx m)) [
    | inl ahead ↦
        let (e, at, k) = >>=-eq-some (entry_at rf.log m) _ (rw ahead at h) in
        record {
          entry = e;
          at = at;
          ahead = ltb→lt _ _ ahead;
          current = (==_iff _ _).0 (some-cancel k);
        }
    | inr behind ↦ absurd (let k = rw behind at h in cc)
  ]

  -- The state after a commit up to index `m` that sends `ms`.
  abbrev pub committed : ℕ → Raft C → List (ApplyMsg C) → Raft C
  committed m rf ms = applied (record rf { commit_idx = m }) ms

  committed-Quiet :
      (m : ℕ) (rf : Raft C) (ms : List (ApplyMsg C))
      → rf.commit_idx < m
      → Quiet rf (committed m rf ms)
  unfolding to_save
  committed-Quiet m rf ms lt = record {
    sound = λ s. record { log = s.log; committed = omega (arith, s.committed); applied = refl };
    on_disk = λ k. k;
    term = omega arith;
    voted_for = refl;
  }

  pub commit_to-committed :
      (m : ℕ) (rf : Raft C)
      → IsSound rf
      → MayCommit m rf
      → (ms : List (ApplyMsg C)) × (commit_to m true rf ≡ some (committed m rf ms))
        × Carries rf.log (rf.applied_idx + 1) (m - rf.applied_idx) ms
  unfolding commit_to
  commit_to-committed m rf s k =
      apply_outstanding-Carries (record rf { commit_idx = m }) s.log
        (omega (arith, s.committed, s.applied))
        (entry-IsTrimmed rf.snapshot_index rf.log m s.log k.at).1

  commit_to-Quiet :
      (m : ℕ) (b : Bool) (rf rf' : Raft C)
      → IsSound rf
      → may_commit m rf ≡ some b
      → commit_to m b rf ≡ some rf'
      → Quiet rf rf'
  unfolding commit_to
  commit_to-Quiet m false rf rf' s may e = becomes (Quiet-refl rf) e
  commit_to-Quiet m true rf rf' s may e =
      let k = may_commit-MayCommit m rf may in
      let (ms, made, _) = commit_to-committed m rf s k in
      becomes (committed-Quiet m rf ms k.ahead) (sym made ∙ e)

  review-Quiet : (b : Bool) (rf rf' : Raft C) → IsSound rf → review b rf ≡ some rf' → Quiet rf rf'
  unfolding review
  review-Quiet false rf rf' s e = becomes (Quiet-refl rf) e
  review-Quiet true rf rf' s e =
      let (m, _, e₁) = >>=-eq-some (median rf.at_server) _ e in
      let (b, may, e₂) = >>=-eq-some (may_commit m rf) _ e₁ in commit_to-Quiet m b rf rf' s may e₂

  pub rvw_commits-Quiet : (rf rf' : Raft C) → IsSound rf → rvw_commits rf ≡ some rf' → Quiet rf rf'
  unfolding rvw_commits
  rvw_commits-Quiet rf rf' s e = review-Quiet (is_leader rf.st) rf rf' s e

-- ===== src/Raft/Commit/Majority.antt =====
-- raft/fns.go: what `rvwCommits` commits is on enough servers.
use pp.Prelude.{
  ℕ, ◌+◌, ◌*◌, ◌-◌, ◌/◌, ◌%◌, ◌≤◌, ◌<◌, ◌≡◌, ◌≢◌, refl, Bool, true, false, some, List, length,
  get_elem?, ltb, ◌==◌, Bool-cases, inl, inr, arith, Returns, ◌⊎◌,
}
use pp.Raft.State.{Raft, ApplyMsg, Role, leader, follower, candidate}
use pp.Raft.Log.{IsTrimmed-entry}
use pp.Raft.Sound.{IsSound}
use pp.Raft.Apply.{Carries}
use pp.Raft.Start.{is_leader}
use pp.Raft.Commit.{median, sort_ints, may_commit, commit_to, review, rvw_commits}
use pp.Raft.Commit.Sorted.{
  count_ge, AllBelow, get-count, get-AllBelow, get-some, sort_ints-IsSorted, sort_ints-count,
  sort_ints-length, sort_ints-AllBelow,
}
use pp.Raft.Step.Commits.{MayCommit, may_commit-MayCommit, commit_to-committed, committed}

-- Half of the servers have the index, or more; an odd number of them, more than half.
pub record Reached (m : ℕ) (at_server : List ℕ) : Type 0 where
  pub half : length at_server ≤ 2 * count_ge m at_server
  pub majority : length at_server % 2 ≡ 1 → length at_server < 2 * count_ge m at_server

place-Reached :
    (k m : ℕ) (xs : List ℕ)
    → get_elem? (sort_ints xs) k ≡ some m
    → 2 * k ≤ length xs
    → (length xs % 2 ≡ 1 → 2 * k < length xs)
    → Reached m xs
place-Reached k m xs h le odd =
    let c = get-count (sort_ints xs) k m (sort_ints-IsSorted xs) h in
    let l = sort_ints-length xs in
    let n = sort_ints-count m xs in
    record { half = omega (arith, c, l, n, le); majority = λ o. omega (arith, c, l, n, odd o) }

-- The median is read, it is one of the indexes, and enough servers are there.
pub median-Reached :
    (b : ℕ) (xs : List ℕ)
    → 0 < length xs
    → AllBelow b xs
    → Returns (median xs) (λ m. (m < b) × Reached m xs)
unfolding median
median-Reached b xs nonempty below =
    let l = sort_ints-length xs in
    let n = length xs in
    let (low, e) =
      get-some (sort_ints xs) ((length (sort_ints xs) - 1) / 2) (omega (arith, l, nonempty)) in
    let all = sort_ints-AllBelow b xs below in
    elim (Bool-cases (length (sort_ints xs) % 2 == 0)) [
      | inl even ↦
          let (m, f) =
            get-some (sort_ints xs) (length (sort_ints xs) / 2) (omega (arith, l, nonempty)) in
          let p : length (sort_ints xs) % 2 ≡ 0 = ground (arith, even) in
          (
            m,
            rw (e, even) f,
            (
              get-AllBelow b (sort_ints xs) _ m all f,
              place-Reached _ m xs f (omega (arith, l)) (λ o. absurd (omega (arith, l, p, o))),
            ),
          )
      | inr odd ↦
          let p : length (sort_ints xs) % 2 ≢ 0 = ground (arith, odd) in
          (
            low,
            rw (e, odd) refl,
            (
              get-AllBelow b (sort_ints xs) _ low all e,
              place-Reached _ low xs e (omega (arith, l)) (λ o. omega (arith, l, nonempty)),
            ),
          )
    ]

leader_or_not : (st : Role) → ((st ≡ leader) × (is_leader st ≡ true)) ⊎ (is_leader st ≡ false)
leader_or_not leader = inl (refl, refl)
leader_or_not follower = inr refl
leader_or_not candidate = inr refl

module _ {C : Type 0} where
  -- A commit up to an index: it is past the commit index, its entry is of the current term, enough servers have it, and
  -- every entry up to it that was not applied is sent, in order.
  pub record Committed (rf rf' : Raft C) : Type 0 where
    pub index : ℕ
    pub may : MayCommit index rf
    pub reached : Reached index rf.at_server
    pub sent : List (ApplyMsg C)
    pub carries : Carries rf.log (rf.applied_idx + 1) (index - rf.applied_idx) sent
    pub now : rf' ≡ committed index rf sent

  abbrev pub Reviewed : Raft C → Raft C → Type 0
  Reviewed rf rf' = (rf' ≡ rf) ⊎ ((rf.st ≡ leader) × Committed rf rf')

  may_commit-Returns :
      (m : ℕ) (rf : Raft C)
      → IsSound rf
      → m < length rf.log
      → (b : Bool) × (may_commit m rf ≡ some b)
  unfolding may_commit
  may_commit-Returns m rf s lt = elim (Bool-cases (ltb rf.commit_idx m)) [
    | inl ahead ↦
        let le : rf.commit_idx < m = ground (arith, ahead) in
        let (e, at) =
          IsTrimmed-entry rf.snapshot_index rf.log m s.log (omega (arith, s.committed, le)) lt in
        (rf.term == e.term, rw (ahead, at) refl)
    | inr behind ↦ (false, rw behind refl)
  ]

  commit_to-Reviewed :
      (m : ℕ) (b : Bool) (rf : Raft C)
      → IsSound rf
      → rf.st ≡ leader
      → Reached m rf.at_server
      → may_commit m rf ≡ some b
      → Returns (commit_to m b rf) (Reviewed rf)
  unfolding commit_to
  commit_to-Reviewed m false rf s l r may = (rf, refl, inl refl)
  commit_to-Reviewed m true rf s l r may =
      let k = may_commit-MayCommit m rf may in
      let (ms, made, c) = commit_to-committed m rf s k in
      (
        committed m rf ms,
        made,
        inr (l, record { index = m; may = k; reached = r; sent = ms; carries = c; now = refl }),
      )

  review-Reviewed :
      (rf : Raft C)
      → IsSound rf
      → rf.st ≡ leader
      → 0 < length rf.at_server
      → AllBelow (length rf.log) rf.at_server
      → Returns (review true rf) (Reviewed rf)
  unfolding review
  review-Reviewed rf s l some_ below =
      let (m, e, (lt, r)) = median-Reached (length rf.log) rf.at_server some_ below in
      let (b, f) = may_commit-Returns m rf s lt in rw (e, f) (commit_to-Reviewed m b rf s l r f)

  -- For a sound server that records an index of its log for every server, of which there are some, a round does not
  -- fail. It changes nothing, or the server is the leader and moves its commit index forward to an entry of its current
  -- term that at least half of the servers have, and more than half where their number is odd, and
  -- sends every entry up to it that was not applied, in order.
  pub rvw_commits-Reviewed :
      (rf : Raft C)
      → IsSound rf
      → 0 < length rf.at_server
      → AllBelow (length rf.log) rf.at_server
      → Returns (rvw_commits rf) (Reviewed rf)
  unfolding rvw_commits review
  rvw_commits-Reviewed rf s some_ below = elim (leader_or_not rf.st) [
    | inl h ↦ rw (h.1) (review-Reviewed rf s h.0 some_ below)
    | inr h ↦ (rf, rw h refl, inl refl)
  ]

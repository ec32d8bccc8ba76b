-- ===== src/Raft/Commit.antt =====
-- raft/fns.go: `rvwCommits`.
pub mod Sorted
pub mod Majority
use pp.Prelude.{
  ℕ, ◌-◌, ◌/◌, ◌%◌, Bool, true, false, Option, some, List, [], ◌∷◌, length, get_elem?, ltb, leb,
  ◌==◌, if◌then◌else◌, ◌>>=◌,
}
use pp.Raft.State.{Raft}
use pp.Raft.Log.{entry_at}
use pp.Raft.Apply.{apply_outstanding}
use pp.Raft.Start.{is_leader}

unfoldable pub insert_int : ℕ → List ℕ → List ℕ
insert_int a [] = a ∷ []
insert_int a (x ∷ xs) = if leb a x then a ∷ x ∷ xs else x ∷ insert_int a xs

-- `sort.Ints`
unfoldable pub sort_ints : List ℕ → List ℕ
unfolding insert_int
sort_ints [] = []
sort_ints (x ∷ xs) = insert_int x (sort_ints xs)

-- Both places are read, so no server at all is a panic.
unfoldable pub median : List ℕ → Option ℕ
median at_server = do
  let sorted = sort_ints at_server
  low ← get_elem? sorted ((length sorted - 1) / 2)
  if length sorted % 2 == 0 then get_elem? sorted (length sorted / 2) else some low

module _ {C : Type 0} where
  -- The term of the median's entry is read only if the median is past the commit index.
  unfoldable pub may_commit : ℕ → Raft C → Option Bool
  may_commit m rf =
      if ltb rf.commit_idx m
      then (do e ← entry_at rf.log m; some (rf.term == e.term))
      else some false

  unfoldable pub commit_to : ℕ → Bool → Raft C → Option (Raft C)
  commit_to m false rf = some rf
  commit_to m true rf = apply_outstanding (record rf { commit_idx = m })

  unfoldable pub review : Bool → Raft C → Option (Raft C)
  review false rf = some rf
  review true rf = do
    m ← median rf.at_server
    yes_commit ← may_commit m rf
    commit_to m yes_commit rf

  -- One round of the loop; it ends for a server that is no leader.
  unfoldable pub rvw_commits : Raft C → Option (Raft C)
  unfolding review may_commit commit_to median
  rvw_commits rf = review (is_leader rf.st) rf

-- ===== src/Raft/Apply.antt =====
-- raft/fns.go: `applyOutstanding`.
use pp.Prelude.{
  ℕ, zero, suc, ◌+◌, ◌-◌, ◌≤◌, ◌<◌, ◌≡◌, refl, Option, some, List, [], ◌∷◌, ◌++◌, arith, length,
  get_elem?, ltb, if◌then◌else◌, ◌>>=◌, Returns, Bool-cases, inl, inr, ltb→lt, ltb→le,
}
use pp.Raft.State.{LogEntry, ApplyMsg, command, Raft}
use pp.Raft.Log.{Slots, entry_at, IsTrimmed, IsTrimmed-entry}
use pp.Raft.Persist.{HasLog}

module _ {C : Type 0} where
  -- The messages for `n` entries from index `i` on; an entry that is not there is a panic.
  unfoldable pub messages : Slots C → ℕ → ℕ → Option (List (ApplyMsg C))
  messages log i zero = some []
  messages log i (suc n) = do
    e ← entry_at log i
    rest ← messages log (suc i) n
    some (command i e.cmd ∷ rest)

  -- The messages are made before any is sent, and sent in order.
  unfoldable pub apply_outstanding : Raft C → Option (Raft C)
  apply_outstanding rf = do
    msgs ←
        (if ltb rf.applied_idx rf.commit_idx
          then messages rf.log (rf.applied_idx + 1) (rf.commit_idx - rf.applied_idx)
          else some [])
    some (record rf { applied_idx = rf.commit_idx; disam = rf.disam ++ msgs })

  -- The message at place `k` of `ms` carries the command of the log's entry at index `i + k`.
  pub record Carries (log : Slots C) (i n : ℕ) (ms : List (ApplyMsg C)) : Type 0 where
    pub count : length ms ≡ n
    pub at :
        (k : ℕ) (e : LogEntry C)
        → k < n
        → entry_at log (i + k) ≡ some e
        → get_elem? ms k ≡ some (command (i + k) e.cmd)

  messages-Carries :
      (s : ℕ) (log : Slots C) (i n : ℕ)
      → IsTrimmed s log
      → s ≤ i
      → i + n ≤ length log
      → Returns (messages log i n) (Carries log i n)
  unfolding messages
  messages-Carries s log i zero h le bound =
      ([], refl, record { count = refl; at = λ k e lt p. absurd (omega arith) })
  messages-Carries s log i (suc n) h le bound =
      let (e, found) = IsTrimmed-entry s log i h le (omega arith) in
      let (rest, made, c) = messages-Carries s log (suc i) n h (omega arith) (omega arith) in
      (
        command i e.cmd ∷ rest,
        rw (found, made),
        record { count = ground (arith, c.count); at = λ k f lt p. place k f e rest found c lt p },
      )
    where
      place :
          (k : ℕ) (f e : LogEntry C) (rest : List (ApplyMsg C))
          → entry_at log i ≡ some e
          → Carries log (suc i) n rest
          → k < suc n
          → entry_at log (i + k) ≡ some f
          → get_elem? (command i e.cmd ∷ rest) k ≡ some (command (i + k) f.cmd)
      place zero f e rest found c lt p = let q : i + 0 ≡ i = omega arith in ground (arith, q)
      place (suc k) f e rest found c lt p =
          let q : i + suc k ≡ suc i + k = omega arith in rw q (c.at k f (omega arith) (rw q at p))

  -- The state after `applyOutstanding`, when it has sent `ms`.
  abbrev pub applied : Raft C → List (ApplyMsg C) → Raft C
  applied rf ms = record rf { applied_idx = rf.commit_idx; disam = rf.disam ++ ms }

  -- With a log that is whole from its snapshot on, a snapshot that is applied, and a commit index inside the log:
  -- `applyOutstanding` does not panic; what was committed and not applied is sent, each entry once and in the log's order,
  -- and nothing else; and the applied index becomes the commit index, and the rest of the state stays.
  pub apply_outstanding-Carries :
      (rf : Raft C)
      → HasLog rf
      → rf.snapshot_index ≤ rf.applied_idx
      → rf.commit_idx < length rf.log
      → (ms : List (ApplyMsg C)) × (apply_outstanding rf ≡ some (applied rf ms))
        × Carries rf.log (rf.applied_idx + 1) (rf.commit_idx - rf.applied_idx) ms
  unfolding apply_outstanding
  apply_outstanding-Carries rf h le lt = elim (Bool-cases (ltb rf.applied_idx rf.commit_idx)) [
    | inl more ↦
        let more' = ltb→lt _ _ more in
        let (ms, made, c) =
          messages-Carries rf.snapshot_index rf.log (rf.applied_idx + 1)
            (rf.commit_idx - rf.applied_idx) h (omega arith) (omega arith) in
        (ms, rw (more, made), c)
    | inr done ↦
        let done' = ltb→le _ _ done in
        let none_left : rf.commit_idx - rf.applied_idx ≡ 0 = omega arith in
        ([], rw done, record { count = rw none_left refl; at = λ k e lt' p. absurd (omega arith) })
  ]

-- ===== src/Raft/Append/Result.antt =====
-- raft/raft.go: what `AppendEntries` does to the log, to the commit index and to the disk.
use mathlib.Core.List.{append-nil}
use pp.Prelude.{
  sym, ℕ, suc, ◌+◌, ◌-◌, ◌≤◌, ◌<◌, ◌≡◌, refl, Option, some, List, [], ◌∷◌, ◌++◌, map, arith, length,
  take, ltb, if◌then◌else◌, Returns, Bool-cases, inl, inr, ltb→lt, ltb→le, take_all,
}
use pp.Raft.State.{LogEntry, ApplyMsg, Raft, Saved, AppendEntriesArgs}
use pp.Raft.Log.{Slots, IsTrimmed, IsTrimmed-length, IsTrimmed-take, IsTrimmed-append}
use pp.Raft.Persist.{to_save, HasLog, persist-HasLog}
use pp.Raft.Sound.{IsSound, IsSaved}
use pp.Raft.Apply.{Carries, applied, apply_outstanding-Carries}
use pp.Raft.Append.{overwrite, extend, follow_commit, accept}

module _ {C : Type 0} where
  -- `rf` with another log and other contents of the disk.
  abbrev relogged : Raft C → Slots C → Option (Saved C) → Raft C
  relogged rf log sv = record rf { log = log; saved = sv }

  overwrite_lem :
      (lli : ℕ) (rf : Raft C)
      → HasLog rf
      → rf.snapshot_index ≤ lli
      → (sv : Option (Saved C)) × (overwrite lli rf ≡ some (relogged rf (take (suc lli) rf.log) sv))
        × (IsSaved rf → IsSaved (relogged rf (take (suc lli) rf.log) sv))
  unfolding overwrite to_save
  overwrite_lem lli rf h le = elim (Bool-cases (ltb (lli + 1) (length rf.log))) [
    | inl long ↦
        let rf' : Raft C = record rf { log = take (suc lli) rf.log } in
        (
          some (to_save rf'),
          rw (long, persist-HasLog rf' (IsTrimmed-take rf.snapshot_index rf.log lli h le)),
          λ _. refl,
        )
    | inr short ↦
        let short' = ltb→le _ _ short in
        let all = take_all (suc lli) rf.log (omega arith) in
        (rf.saved, rw (short, all), λ s. rw all s)
  ]

  extend_lem :
      (es : List (LogEntry C)) (rf : Raft C)
      → HasLog rf
      → (sv : Option (Saved C)) × (extend es rf ≡ some (relogged rf (rf.log ++ map some es) sv))
        × (IsSaved rf → IsSaved (relogged rf (rf.log ++ map some es) sv))
  unfolding extend to_save
  extend_lem [] rf h = let all = append-nil rf.log in (rf.saved, rw all, λ s. rw all s)
  extend_lem (e ∷ es) rf h =
      let rf' : Raft C = record rf { log = rf.log ++ map some (e ∷ es) } in
      (
        some (to_save rf'),
        persist-HasLog rf' (IsTrimmed-append rf.snapshot_index rf.log (e ∷ es) h),
        λ _. refl,
      )

  -- The last index of the log, if the leader's commit index `lci` is past it.
  abbrev pub within : ℕ → Raft C → ℕ
  within lci rf = let last_ent = length rf.log - 1 in if ltb last_ent lci then last_ent else lci

  -- The commit index that the leader's index `lci` brings about.
  abbrev pub new_commit : ℕ → Raft C → ℕ
  new_commit lci rf = if ltb rf.commit_idx lci then within lci rf else rf.commit_idx

  -- The commit index and the messages sent, after a commit index `lci` of the leader.
  pub record Followed (lci : ℕ) (rf rf' : Raft C) : Type 0 where
    pub messages : List (ApplyMsg C)
    pub applied_idx : ℕ
    pub state : rf' ≡ record rf {
      commit_idx = new_commit lci rf;
      applied_idx = applied_idx;
      disam = rf.disam ++ messages;
    }
    pub applied : applied_idx ≡ new_commit lci rf
    pub sent :
        rf.commit_idx < lci
        → Carries rf.log (rf.applied_idx + 1) (new_commit lci rf - rf.applied_idx) messages
    pub idle : lci ≤ rf.commit_idx → (messages ≡ []) × (applied_idx ≡ rf.applied_idx)

  new_commit-bound :
      (lci : ℕ) (rf : Raft C)
      → HasLog rf
      → rf.snapshot_index ≤ rf.commit_idx
      → rf.snapshot_index ≤ new_commit lci rf
  new_commit-bound lci rf h le = ground (arith, IsTrimmed-length rf.snapshot_index rf.log h)

  follow_commit_lem :
      (lci : ℕ) (rf : Raft C) → IsSound rf → Returns (follow_commit lci rf) (Followed lci rf)
  unfolding follow_commit
  follow_commit_lem lci rf s = elim (Bool-cases (ltb rf.commit_idx lci)) [
    | inl more ↦
        let more' = ltb→lt _ _ more in
        let len = IsTrimmed-length rf.snapshot_index rf.log s.log in
        let rf' : Raft C = record rf { commit_idx = within lci rf } in
        let (ms, made, c) =
          apply_outstanding-Carries rf' s.log (omega (arith, s.applied, s.committed))
            (ground (arith, len)) in
        let nc : new_commit lci rf ≡ within lci rf = rw more in
        (
          applied rf' ms,
          rw (more, made),
          record {
            messages = ms;
            applied_idx = within lci rf;
            state = rw more;
            applied = sym nc;
            sent = λ _. rw nc c;
            idle = λ k. absurd (omega arith);
          },
        )
    | inr done ↦
        let done' = ltb→le _ _ done in
        (
          rf,
          rw done,
          record {
            messages = [];
            applied_idx = rf.applied_idx;
            state = rw (done, append-nil);
            applied = rw done s.applied;
            sent = λ k. absurd (omega arith);
            idle = λ _. (refl, refl);
          },
        )
  ]

  -- The log after the leader's entries are taken over.
  abbrev pub spliced : AppendEntriesArgs C → Raft C → Slots C
  spliced args rf = take (suc args.last_log_index) rf.log ++ map some args.entries

  pub spliced-IsTrimmed :
      (args : AppendEntriesArgs C) (rf : Raft C)
      → HasLog rf
      → rf.snapshot_index ≤ args.last_log_index
      → IsTrimmed rf.snapshot_index (spliced args rf)
  spliced-IsTrimmed args rf h le =
      IsTrimmed-append rf.snapshot_index (take (suc args.last_log_index) rf.log) args.entries
        (IsTrimmed-take rf.snapshot_index rf.log args.last_log_index h le)

  -- What an accepted message makes of the state.
  pub record Accepted (args : AppendEntriesArgs C) (rf rf' : Raft C) : Type 0 where
    pub saved : Option (Saved C)
    pub on_disk : IsSaved rf → IsSaved rf'
    pub followed : Followed args.leader_commit_idx (relogged rf (spliced args rf) saved) rf'

  pub accept_lem :
      (args : AppendEntriesArgs C) (rf : Raft C)
      → IsSound rf
      → rf.snapshot_index ≤ args.last_log_index
      → Returns (accept args rf) (Accepted args rf)
  unfolding accept to_save
  accept_lem args rf s le =
      let (sv, made, keep) = overwrite_lem args.last_log_index rf s.log le in
      let rf₁ = relogged rf (take (suc args.last_log_index) rf.log) sv in
      let trimmed = IsTrimmed-take rf.snapshot_index rf.log args.last_log_index s.log le in
      let (sv', made', keep') = extend_lem args.entries rf₁ trimmed in
      let rf₂ = relogged rf (spliced args rf) sv' in
      let (rf', followed, f) = follow_commit_lem args.leader_commit_idx rf₂ (record {
        log = spliced-IsTrimmed args rf s.log le;
        committed = s.committed;
        applied = s.applied;
      }) in
      (
        rf',
        rw (made, made', followed),
        record { saved = sv'; on_disk = λ k. rw f.state (keep' (keep k)); followed = f },
      )

  -- The fields of an accepting state.
  pub record AcceptedFields (args : AppendEntriesArgs C) (rf rf' : Raft C) : Type 0 where
    pub sound : IsSound rf'
    pub voted_for : rf'.voted_for ≡ rf.voted_for
    pub term : rf'.term ≡ rf.term
    pub log : rf'.log ≡ spliced args rf
    pub commit_idx :
        rf'.commit_idx ≡ new_commit args.leader_commit_idx (record rf { log = spliced args rf })

  pub Accepted-fields :
      (args : AppendEntriesArgs C) (rf rf' : Raft C)
      → IsSound rf
      → rf.snapshot_index ≤ args.last_log_index
      → Accepted args rf rf'
      → AcceptedFields args rf rf'
  Accepted-fields args rf rf' s le a =
      let f = a.followed in
      let trimmed = spliced-IsTrimmed args rf s.log le in
      record {
        sound = rw f.state (record {
          log = trimmed;
          committed =
              new_commit-bound args.leader_commit_idx (record rf { log = spliced args rf }) trimmed
                s.committed;
          applied = f.applied;
        });
        voted_for = rw f.state;
        term = rw f.state;
        log = rw f.state;
        commit_idx = rw f.state;
      }

-- ===== src/Raft/Append/Reply.antt =====
-- raft/raft.go: the reply of `AppendEntries`, and the state that goes with it.
use pp.Prelude.{
  ℕ, suc, ◌≤◌, ◌<◌, ◌≡◌, refl, ap, ap₂, ◌∙◌, true, false, Option, none, some, ◌++◌, map, arith,
  take, get_elem?, ltb, ◌==◌, if◌then◌else◌, ◌>>=◌, Returns, Bool-cases, inl, inr, ltb→lt, ltb→le,
  ==_iff, ◌⊎◌, le-lt-absurd,
}
use pp.Prelude.Int.{pos, minus_one}
use pp.Raft.State.{LogEntry, Raft, follower, AppendEntriesArgs, AppendEntriesReply}
use pp.Raft.Log.{Slots, entry_at, entry_at-get_elem?, entry-IsTrimmed}
use pp.Raft.Persist.{to_save, joined, HasLog, msg_common-HasLog}
use pp.Raft.Sound.{IsSound, IsSaved}
use pp.Raft.Append.{first_index_for_term, accept, check_entry, append_entries, failure, success_in}
use pp.Raft.Append.Hints.{Refused, Hints, Answers, Answers-short, Answers-nil, Answers-other}
use pp.Raft.Append.Result.{spliced, new_commit, Accepted-fields, accept_lem}

module _ {C : Type 0} where
  -- The log has an entry at the leader's last index, of the leader's last term.
  abbrev pub Agrees : AppendEntriesArgs C → Raft C → Type 0
  Agrees args rf =
      (e : LogEntry C) × (entry_at rf.log args.last_log_index ≡ some e)
      × (e.term ≡ args.last_log_term)

  pub record AppendResult (args : AppendEntriesArgs C) (rf : Raft C)
      (r : Raft C × AppendEntriesReply) : Type 0 where
    pub sound : IsSound r.0
    pub on_disk : IsSaved rf → IsSaved r.0
    pub voted_for : r.0.voted_for ≡ rf.voted_for
    pub stale :
        args.term < rf.term
        → (r.0 ≡ rf) × Refused rf.term r.1 × Hints r.1 minus_one minus_one minus_one
    pub term : rf.term ≤ args.term → r.0.term ≡ args.term
    pub accepted :
        rf.term ≤ args.term
        → Agrees args rf
        → (r.1.term ≡ args.term)
          × (r.1.success ≡ true)
          × (r.0.log ≡ spliced args rf)
          × (r.0.commit_idx
              ≡ new_commit args.leader_commit_idx (record rf { log = spliced args rf }))
    pub rejected :
        rf.term ≤ args.term
        → ¬ Agrees args rf
        → Refused args.term r.1
          × Answers args rf.log r.1
          × (r.0.log ≡ rf.log)
          × (r.0.commit_idx ≡ rf.commit_idx)
          × (r.0.disam ≡ rf.disam)

  -- The state once the term is checked.
  met : ℕ → ℕ → Raft C → Raft C
  met now t rf = record (joined t rf) { ts = now; st = follower }

  append_entries-met :
      (now : ℕ) (args : AppendEntriesArgs C) (rf : Raft C)
      → HasLog rf
      → append_entries now args rf ≡ (
          if ltb args.term rf.term
          then some (rf, failure rf.term minus_one minus_one minus_one)
          else check_entry args (met now args.term rf) (get_elem? rf.log args.last_log_index))
  unfolding append_entries met joined
  append_entries-met now args rf h = ground (arith, msg_common-HasLog args.term rf h)

  module _ (now : ℕ) (args : AppendEntriesArgs C) (rf : Raft C) (s : IsSound rf) where
    abbrev m : Raft C
    m = met now args.term rf

    m-IsSound : IsSound m
    unfolding met joined
    m-IsSound = ground (arith, s.log, s.committed, s.applied)

    m-IsSaved : IsSaved rf → IsSaved m
    unfolding met joined to_save
    m-IsSaved k = ground arith

    m-term : rf.term ≤ args.term → m.term ≡ args.term
    unfolding met joined
    m-term h = ground arith

    m-same :
        (m.log ≡ rf.log)
        × (m.snapshot_index ≡ rf.snapshot_index)
        × (m.commit_idx ≡ rf.commit_idx)
        × (m.disam ≡ rf.disam)
        × (m.voted_for ≡ rf.voted_for)
    unfolding met joined
    m-same = ground arith

    module _ (le : rf.term ≤ args.term) where
      not_stale : {X : Type 0} → args.term < rf.term → X
      not_stale k = absurd (le-lt-absurd le k)

      refusal :
          (reply : AppendEntriesReply)
          → Refused args.term reply
          → Answers args rf.log reply
          → ¬ Agrees args rf
          → AppendResult args rf (m, reply)
      refusal reply refused answers n = record {
        sound = m-IsSound;
        on_disk = m-IsSaved;
        voted_for = m-same.4;
        stale = not_stale;
        term = m-term;
        accepted = λ _ a. absurd (n a);
        rejected = λ _ _. (refused, answers, m-same.0, m-same.2, m-same.3);
      }

      slot_entry :
          (o : Option (Option (LogEntry C)))
          → get_elem? rf.log args.last_log_index ≡ o
          → entry_at rf.log args.last_log_index ≡ (o >>= λ (e : Option (LogEntry C)). e)
      slot_entry o p = rw (← p) (entry_at-get_elem? rf.log args.last_log_index)

      abbrev cut : Slots C → Slots C
      cut log = take (suc args.last_log_index) log ++ map some args.entries

      abbrev risen : Slots C → ℕ → ℕ
      risen log c = new_commit args.leader_commit_idx (record rf { log = cut log; commit_idx = c })

      acceptance :
          (e : LogEntry C)
          → entry_at rf.log args.last_log_index ≡ some e
          → e.term ≡ args.last_log_term
          → Returns (accept args m) (λ rf'. AppendResult args rf (rf', success_in (m).term))
      acceptance e at same =
          let (low, high) = entry-IsTrimmed rf.snapshot_index rf.log args.last_log_index s.log at in
          let (rf', made, a) = accept_lem args m m-IsSound (rw (m-same.1) low) in
          let f = Accepted-fields args m rf' m-IsSound (rw (m-same.1) low) a in
          (
            rf',
            made,
            record {
              sound = f.sound;
              on_disk = λ k. a.on_disk (m-IsSaved k);
              voted_for = f.voted_for ∙ m-same.4;
              stale = not_stale;
              term = λ _. f.term ∙ m-term le;
              accepted = λ _ _. (
                m-term le,
                refl,
                f.log ∙ ap cut m-same.0,
                f.commit_idx ∙ ap₂ risen m-same.0 m-same.2,
              );
              rejected = λ _ n. absurd (n (e, at, same));
            },
          )

      check_entry-Result :
          (o : Option (Option (LogEntry C)))
          → get_elem? rf.log args.last_log_index ≡ o
          → Returns (check_entry args m o) (AppendResult args rf)
      unfolding check_entry
      check_entry-Result none p = (
        _,
        refl,
        refusal _ (m-term le, refl) (Answers-short args rf.log (m).term (m).log m-same.0 p)
            (λ a. cc (slot_entry none p, a.1)),
      )
      check_entry-Result (some none) p = (
        _,
        refl,
        refusal _ (m-term le, refl) (Answers-nil args rf.log (m).term (m).log m-same.0 p)
            (λ a. cc (slot_entry (some none) p, a.1)),
      )
      check_entry-Result (some (some e)) p = elim (Bool-cases (e.term == args.last_log_term)) [
        | inl same ↦
            let (rf', made, r) =
              acceptance e (slot_entry (some (some e)) p) ((==_iff _ _).0 same) in
            ((rf', success_in (m).term), rw (same, made), r)
        | inr other ↦
            let reply =
              failure (m).term (pos e.term) (first_index_for_term (pos e.term) (m).log) minus_one in
            (
              (m, reply),
              rw other,
              refusal reply (m-term le, refl)
                  (Answers-other args rf.log (m).term (m).log m-same.0 e p)
                  (λ a. ground (arith, slot_entry (some (some e)) p, a.1, a.2)),
            )
      ]

  -- With a sound state, that is a log whole from its snapshot on and consistent indexes, `append_entries` returns, keeps the state sound and the disk current, and
  -- leaves the vote alone. A message of an earlier term changes nothing and is refused with the server's term and no
  -- hint. Any other moves the server to its term, which the reply gives, and is accepted exactly if the log has an entry at
  -- the leader's last index with the leader's last term. On acceptance the log is cut behind that entry and extended by
  -- the leader's entries, and the commit index rises to the leader's, as far as the log goes; on
  -- refusal the log, the commit index and the messages for the service are as before, and the hints for the leader are the
  -- length of a log that is too short, nothing at a nil entry, and else the term of the entry at the leader's last index
  -- with the first index at which the log has that term.
  pub append_entries-AppendResult :
      (now : ℕ) (args : AppendEntriesArgs C) (rf : Raft C)
      → IsSound rf
      → Returns (append_entries now args rf) (AppendResult args rf)
  append_entries-AppendResult now args rf s =
      rw (append_entries-met now args rf s.log) (split (Bool-cases (ltb args.term rf.term)))
    where
      Goal : Type 0
      Goal =
          Returns
            (if ltb args.term rf.term
              then some (rf, failure rf.term minus_one minus_one minus_one)
              else check_entry args (met now args.term rf) (get_elem? rf.log args.last_log_index))
            (AppendResult args rf)

      split : (ltb args.term rf.term ≡ true) ⊎ (ltb args.term rf.term ≡ false) → Goal
      split (inr new) = rw new (
          check_entry-Result now args rf s (ltb→le _ _ new) (get_elem? rf.log args.last_log_index)
            refl)
      split (inl old) =
          let old' = ltb→lt _ _ old in
          rw old (
            _,
            refl,
            record {
              sound = s;
              on_disk = λ k. k;
              voted_for = refl;
              stale = λ _. (refl, (refl, refl), (refl, refl, refl));
              term = λ k. absurd (le-lt-absurd k old');
              accepted = λ k. absurd (le-lt-absurd k old');
              rejected = λ k. absurd (le-lt-absurd k old');
            },
          )

-- ===== src/Raft/Vote/Grant.antt =====
-- raft/raft.go: when `RequestVote` grants a vote.
use pp.Prelude.{
  ℕ, ◌+◌, ◌-◌, ◌≤◌, ◌<◌, ◌≡◌, refl, Bool, true, false, not, ◌||◌, some, arith, length, ltb, leb,
  if◌then◌else◌, Returns, ◌↔◌, ◌⊎◌, inl, inr, Bool-cases, ltb→lt, ltb→le, le-lt-absurd,
}
use pp.Prelude.Int.{minus_one, eq_ℤ, eq_ℤ_iff}
use pp.Raft.State.{LogEntry, Raft, RequestVoteArgs, RequestVoteReply}
use pp.Raft.Log.{last_entry, IsTrimmed-length}
use pp.Raft.Persist.{to_save, joined, HasLog, persist-HasLog, msg_common-HasLog}
use pp.Raft.Vote.{other_is_recent, cast, vote, forget_vote, request_vote, in_term}

module _ {C : Type 0} where
  -- A log that ends at index `oi` with term `ot` is at least as recent as `rf`'s, whose last entry
  -- has term `mt`.
  abbrev pub IsRecent : Raft C → ℕ → ℕ → ℕ → Type 0
  IsRecent rf oi ot mt = (mt < ot) ⊎ ((mt ≡ ot) × (length rf.log ≤ oi + 1))

  pub in_term-HasLog : (t : ℕ) (rf : Raft C) → HasLog rf → HasLog (in_term t rf)
  unfolding in_term
  in_term-HasLog t rf h = ground arith

  forget_vote-HasLog :
      (t : ℕ) (rf : Raft C)
      → HasLog rf
      → forget_vote (joined t rf) (not (ltb rf.term t)) ≡ some (in_term t rf)
  unfolding forget_vote in_term joined
  forget_vote-HasLog t rf h =
      ground (arith, persist-HasLog (record (joined t rf) { voted_for = minus_one }))

  request_vote-in_term :
      (now : ℕ) (args : RequestVoteArgs) (rf : Raft C)
      → HasLog rf
      → request_vote now args rf ≡ (
          if ltb args.term rf.term
          then some (in_term args.term rf, record { term = rf.term; vote_granted = false })
          else vote now args (in_term args.term rf))
  unfolding request_vote in_term joined
  request_vote-in_term now args rf h =
      ground (arith, msg_common-HasLog args.term rf h, forget_vote-HasLog args.term rf h)

  -- The answer to `other_is_recent` is the one that `IsRecent` describes.
  other_is_recent-IsRecent :
      (rf : Raft C) (oi ot : ℕ) (e : LogEntry C)
      → HasLog rf
      → last_entry rf.log ≡ some e
      → (b : Bool) × (other_is_recent rf oi ot ≡ some b)
        × (b ≡ true → IsRecent rf oi ot e.term)
        × (IsRecent rf oi ot e.term → b ≡ true)
  unfolding other_is_recent
  other_is_recent-IsRecent rf oi ot e h le =
      let b : Bool =
        (if ltb e.term ot
          then true
          else if ltb ot e.term
          then false
          else if leb (length rf.log - 1) oi
          then true
          else false) in
      let lt = IsTrimmed-length rf.snapshot_index rf.log h in
      (b, ground arith, ground arith, ground arith)

  -- What a vote of `rf` for `args` depends on: the candidate's term, its log against the last entry
  -- `e` of ours, and the vote that was given in that term.
  pub record MayVote (rf : Raft C) (args : RequestVoteArgs) (e : LogEntry C) : Type 0 where
    pub term : rf.term ≤ args.term
    pub recent : IsRecent rf args.last_log_index args.last_log_term e.term
    pub free :
        (rf.term < args.term) ⊎ ((rf.voted_for ≡ minus_one) ⊎ (rf.voted_for ≡ args.candidate_id))

  -- The state and the reply of a vote that is given, and of one that is refused.
  pub record Voted (args : RequestVoteArgs) (rf rf' : Raft C) (reply : RequestVoteReply)
      : Type 0 where
    pub voted_for : rf'.voted_for ≡ args.candidate_id
    pub term : rf'.term ≡ args.term
    pub saved : rf'.saved ≡ some (to_save rf')
    pub log : rf'.log ≡ rf.log
    pub snapshot_index : rf'.snapshot_index ≡ rf.snapshot_index
    pub commit_idx : rf'.commit_idx ≡ rf.commit_idx
    pub applied_idx : rf'.applied_idx ≡ rf.applied_idx
    pub reply_term : reply.term ≡ args.term

  pub record Refused (args : RequestVoteArgs) (rf rf' : Raft C) (reply : RequestVoteReply)
      : Type 0 where
    pub state : rf' ≡ in_term args.term rf
    pub reply_term : reply.term ≡ rf'.term

  pub record VoteResult (args : RequestVoteArgs) (rf : Raft C) (e : LogEntry C)
      (r : Raft C × RequestVoteReply) : Type 0 where
    pub granted : r.1.vote_granted ≡ true → MayVote rf args e × Voted args rf r.0 r.1
    pub refused : r.1.vote_granted ≡ false → ¬ MayVote rf args e × Refused args rf r.0 r.1
    pub has_log : HasLog r.0

  abbrev is_free : RequestVoteArgs → Raft C → Bool
  is_free args rf = eq_ℤ rf.voted_for minus_one || eq_ℤ rf.voted_for args.candidate_id

  -- A vote of an earlier term does not bind.
  in_term-free :
      (args : RequestVoteArgs) (rf : Raft C)
      → (is_free args (in_term args.term rf) ≡ true) ↔ (
          (rf.term < args.term) ⊎ ((rf.voted_for ≡ minus_one) ⊎ (rf.voted_for ≡ args.candidate_id)))
  unfolding in_term joined
  in_term-free args rf = (
    ground (arith, eq_ℤ_iff rf.voted_for minus_one, eq_ℤ_iff rf.voted_for args.candidate_id),
    ground (arith, eq_ℤ_iff rf.voted_for minus_one, eq_ℤ_iff rf.voted_for args.candidate_id),
  )

  term-in_term : (t : ℕ) (rf : Raft C) → rf.term ≤ t → (in_term t rf).term ≡ t
  unfolding in_term joined
  term-in_term t rf h = ground arith

  log-in_term :
      (t : ℕ) (rf : Raft C)
      → ((in_term t rf).log ≡ rf.log)
        × ((in_term t rf).snapshot_index ≡ rf.snapshot_index)
        × ((in_term t rf).commit_idx ≡ rf.commit_idx)
        × ((in_term t rf).applied_idx ≡ rf.applied_idx)
  unfolding in_term joined
  log-in_term t rf = ground arith

  module _ (now : ℕ) (args : RequestVoteArgs) (rf : Raft C) (e : LogEntry C) (h : HasLog rf)
      (le : rf.term ≤ args.term) where
    abbrev met : Raft C
    met = in_term args.term rf

    abbrev balloted : Raft C
    balloted = record met { ts = now; voted_for = args.candidate_id }

    refusal :
        ¬ MayVote rf args e
        → Returns
            (some (met, record { term = met.term; vote_granted = false }))
            (VoteResult args rf e)
    refusal n = (
      _,
      refl,
      record {
        granted = λ k. cc;
        refused = λ _. (n, record { state = refl; reply_term = refl });
        has_log = in_term-HasLog args.term rf h;
      },
    )

    cast-Returns :
        (b : Bool)
        → (b ≡ true → IsRecent rf args.last_log_index args.last_log_term e.term)
        → (IsRecent rf args.last_log_index args.last_log_term e.term → b ≡ true)
        → Returns (cast now args met b) (VoteResult args rf e)
    unfolding cast to_save
    cast-Returns false sound complete = refusal (λ m. cc (complete m.recent))
    cast-Returns true sound complete = elim (Bool-cases (is_free args met)) [
      | inl free ↦
          rw (free, persist-HasLog balloted (in_term-HasLog args.term rf h))
            (
              _,
              refl,
              record {
                granted = λ _. (
                  record { term = le; recent = sound refl; free = (in_term-free args rf).0 free },
                  record {
                    voted_for = refl;
                    term = term-in_term args.term rf le;
                    saved = refl;
                    log = (log-in_term args.term rf).0;
                    snapshot_index = (log-in_term args.term rf).1;
                    commit_idx = (log-in_term args.term rf).2;
                    applied_idx = (log-in_term args.term rf).3;
                    reply_term = term-in_term args.term rf le;
                  },
                );
                refused = λ k. cc;
                has_log = in_term-HasLog args.term rf h;
              },
            )
      | inr bound ↦ rw bound (refusal (λ m. cc (bound, (in_term-free args rf).1 m.free)))
    ]

    last-met : last_entry rf.log ≡ some e → last_entry met.log ≡ some e
    last-met p = rw (log-in_term args.term rf).0 p

    vote-Returns : last_entry rf.log ≡ some e → Returns (vote now args met) (VoteResult args rf e)
    unfolding vote
    vote-Returns p =
        let (b, answer, sound, complete) =
          other_is_recent-IsRecent met args.last_log_index args.last_log_term e
            (in_term-HasLog args.term rf h) (last-met p) in
        rw answer (
          cast-Returns b (λ k. rw (log-in_term args.term rf).0 at (sound k))
            (λ k. complete (rw (log-in_term args.term rf).0 k)))

  term-in_term_old : (t : ℕ) (rf : Raft C) → t < rf.term → rf.term ≡ (in_term t rf).term
  unfolding in_term
  term-in_term_old t rf h = ground arith

  pub request_vote-VoteResult :
      (now : ℕ) (args : RequestVoteArgs) (rf : Raft C) (e : LogEntry C)
      → HasLog rf
      → last_entry rf.log ≡ some e
      → Returns (request_vote now args rf) (VoteResult args rf e)
  unfolding vote
  request_vote-VoteResult now args rf e h le =
      rw (request_vote-in_term now args rf h) (split (Bool-cases (ltb args.term rf.term)))
    where
      Goal : Type 0
      Goal =
          Returns
            (if ltb args.term rf.term
              then some (in_term args.term rf, record { term = rf.term; vote_granted = false })
              else vote now args (in_term args.term rf))
            (VoteResult args rf e)

      split : (ltb args.term rf.term ≡ true) ⊎ (ltb args.term rf.term ≡ false) → Goal
      split (inl old) = rw old (
        _,
        refl,
        record {
          granted = λ k. cc;
          refused = λ _. (
            λ m. absurd (le-lt-absurd m.term (ltb→lt _ _ old)),
            record { state = refl; reply_term = term-in_term_old args.term rf (ltb→lt _ _ old) },
          );
          has_log = in_term-HasLog args.term rf h;
        },
      )
      split (inr new) = rw new (vote-Returns now args rf e h (ltb→le _ _ new) le)

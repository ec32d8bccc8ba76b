-- ===== src/Raft/Step/Votes.antt =====
-- raft/raft.go, raft/fns.go: over any run, restarts included, a server votes for one candidate a term.
use pp.Prelude.{
  ℕ, ◌+◌, ◌≤◌, ◌≡◌, ◌≢◌, refl, sym, ◌∙◌, subst, some, List, [], ◌∷◌, ◌++◌, if◌then◌else◌,
  some-cancel, Bool-cases, ◌⊎◌, inl, inr, arith, Returns-eq, get_elem?,
}
use pp.Prelude.Int.{ℤ, pos, minus_one}
use pp.Raft.State.{candidate, Raft, RequestVoteArgs, RequestVoteReply}
use pp.Raft.Log.{last_entry-IsTrimmed}
use pp.Raft.Persist.{to_save, kept, persist-HasLog, joined}
use pp.Raft.Sound.{IsSound, IsSaved}
use pp.Raft.Vote.{request_vote, in_term}
use pp.Raft.Vote.Grant.{request_vote-VoteResult}
use pp.Raft.Election.{campaign}
use pp.Raft.Step.{Step, Run, votes, here, next}
use pp.Raft.Step.Ballots.{Vote, All, OneEach, All-append, lookup-OneEach}
use pp.Raft.Step.Quiet.{Quiet}
use pp.Raft.Step.Tables.{
  handle_append_reply-Quiet, handle_install_reply-Quiet, do_heartbeat-Quiet, count_reply-Quiet,
  poll-Quiet,
}
use pp.Raft.Step.Logs.{
  append_entries-Quiet, install_snapshot-Quiet, cond_install_snapshot-Quiet, snapshot_to-Quiet,
  start-Quiet, make-Quiet,
}
use pp.Raft.Step.Commits.{rvw_commits-Quiet}

module _ {C : Type 0} where
  -- A vote that a step gave: it is the one that the new state holds.
  abbrev IsCast : Raft C → Vote → Type 0
  IsCast rf v = (v.0 ≡ rf.term) × (rf.voted_for ≡ v.1) × (v.1 ≢ minus_one)

  -- A vote given earlier: it is of an earlier term, or the one that the state holds.
  abbrev IsPast : Raft C → Vote → Type 0
  IsPast rf v = (v.0 ≤ rf.term) × (v.0 ≡ rf.term → rf.voted_for ≡ v.1) × (v.1 ≢ minus_one)

  -- What a step keeps, and what it does to the vote of a term.
  record Keeps (rf rf' : Raft C) (given : List Vote) : Type 0 where
    sound : IsSound rf'
    on_disk : IsSaved rf'
    term : rf.term ≤ rf'.term
    voted_for : rf'.term ≡ rf.term → (rf'.voted_for ≡ rf.voted_for) ⊎ (rf.voted_for ≡ minus_one)
    cast : All (IsCast rf') given

  Quiet-Keeps : (rf rf' : Raft C) → IsSound rf → IsSaved rf → Quiet rf rf' → Keeps rf rf' []
  Quiet-Keeps rf rf' s k q = record {
    sound = q.sound s;
    on_disk = q.on_disk k;
    term = q.term;
    voted_for = λ _. inl q.voted_for;
    cast = tt;
  }

  stood : Raft C → Raft C
  stood rf = record rf { st = candidate; voted_for = pos rf.me; term = rf.term + 1 }

  stood-Keeps :
      (rf : Raft C) → IsSound rf → Keeps rf (kept (stood rf)) (((stood rf).term, pos rf.me) ∷ [])
  unfolding stood to_save
  stood-Keeps rf s = record {
    sound = record { log = s.log; committed = s.committed; applied = s.applied };
    on_disk = refl;
    term = omega arith;
    voted_for = λ e. absurd (omega arith);
    cast = ((refl, refl, λ e. cc), tt);
  }

  campaign-Keeps :
      (rf rf' : Raft C)
      → IsSound rf
      → campaign rf ≡ some rf'
      → Keeps rf rf' ((rf'.term, pos rf.me) ∷ [])
  unfolding campaign stood
  campaign-Keeps rf rf' s e =
      subst (λ r. Keeps rf r ((r.term, pos rf.me) ∷ []))
        (some-cancel (sym (persist-HasLog (stood rf) s.log) ∙ e)) (stood-Keeps rf s)

  in_term-Keeps : (t : ℕ) (rf : Raft C) → IsSound rf → IsSaved rf → Keeps rf (in_term t rf) []
  unfolding in_term joined to_save
  in_term-Keeps t rf s k = record {
    sound = ground (arith, s.log, s.committed, s.applied);
    on_disk = ground arith;
    term = ground arith;
    voted_for = ground arith;
    cast = tt;
  }

  request_vote-Keeps :
      (now : ℕ) (args : RequestVoteArgs) (reply : RequestVoteReply) (rf rf' : Raft C)
      → args.candidate_id ≢ minus_one
      → IsSound rf
      → IsSaved rf
      → request_vote now args rf ≡ some (rf', reply)
      → Keeps rf rf' (if reply.vote_granted then (args.term, args.candidate_id) ∷ [] else [])
  unfolding to_save
  request_vote-Keeps now args reply rf rf' n s k e =
      let (entry, at) = last_entry-IsTrimmed rf.snapshot_index rf.log s.log in
      let r =
        Returns-eq (request_vote now args rf) (request_vote-VoteResult now args rf entry s.log at)
          e in
      elim (Bool-cases reply.vote_granted) [
        | inl yes_vote ↦
            let (may, v) = r.granted yes_vote in
            rw yes_vote (record {
              sound = record {
                log = r.has_log;
                committed = rw (v.snapshot_index, v.commit_idx) s.committed;
                applied = rw (v.applied_idx, v.commit_idx) s.applied;
              };
              on_disk = rw v.saved;
              term = omega (arith, v.term, may.term);
              voted_for = λ same. elim may.free [
                | inl lt ↦ absurd (omega (arith, v.term, same))
                | inr (inl free) ↦ inr free
                | inr (inr own) ↦ inl (v.voted_for ∙ sym own)
              ];
              cast = ((sym v.term, v.voted_for, n), tt);
            })
        | inr no_vote ↦
            let (_, f) = r.refused no_vote in
            rw no_vote (subst (λ t. Keeps rf t []) (sym f.state) (in_term-Keeps args.term rf s k))
      ]

  Step-Keeps :
      {rf rf' : Raft C} (step : Step rf rf') → IsSound rf → IsSaved rf → Keeps rf rf' (votes step)
  Step-Keeps {rf} {rf'} (Step.vote now args reply n e) s k =
      request_vote-Keeps now args reply rf rf' n s k e
  Step-Keeps {rf} {rf'} (Step.append now args reply e) s k =
      Quiet-Keeps rf rf' s k (append_entries-Quiet now args reply rf rf' s e)
  Step-Keeps {rf} {rf'} (Step.offer now args reply e) s k =
      Quiet-Keeps rf rf' s k (install_snapshot-Quiet now args reply rf rf' s.log e)
  Step-Keeps {rf} {rf'} (Step.install term index snapshot done e) s k =
      Quiet-Keeps rf rf' s k (cond_install_snapshot-Quiet term index snapshot done rf rf' s.log e)
  Step-Keeps {rf} {rf'} (Step.compact index snapshot le e) s k =
      Quiet-Keeps rf rf' s k (snapshot_to-Quiet index snapshot rf rf' s.log le e)
  Step-Keeps {rf} {rf'} (Step.command cmd reply e) s k =
      Quiet-Keeps rf rf' s k (start-Quiet cmd reply rf rf' s.log e)
  Step-Keeps {rf} {rf'} (Step.stand e) s k = campaign-Keeps rf rf' s e
  Step-Keeps {rf} {rf'} (Step.tally reply vc vc' e) s k =
      Quiet-Keeps rf rf' s k (count_reply-Quiet reply vc vc' rf rf' s.log e)
  Step-Keeps {rf} {rf'} (Step.look vc o e) s k = Quiet-Keeps rf rf' s k (poll-Quiet vc o rf rf' e)
  Step-Keeps {rf} {rf'} (Step.heartbeat now calls e) s k =
      Quiet-Keeps rf rf' s k (do_heartbeat-Quiet now calls rf rf' e)
  Step-Keeps {rf} {rf'} (Step.appended j args reply e) s k =
      Quiet-Keeps rf rf' s k (handle_append_reply-Quiet j args reply rf rf' s.log e)
  Step-Keeps {rf} {rf'} (Step.offered j args term e) s k =
      Quiet-Keeps rf rf' s k (handle_install_reply-Quiet j args term rf rf' s.log e)
  Step-Keeps {rf} {rf'} (Step.commit e) s k = Quiet-Keeps rf rf' s k (rvw_commits-Quiet rf rf' s e)
  Step-Keeps {rf} {rf'} (Step.restart e) s k = Quiet-Keeps rf rf' s k (make-Quiet rf rf' s k e)

  -- After a run: the state is sound, the disk current, and every vote given is past.
  record Held (rf : Raft C) (given : List Vote) : Type 0 where
    sound : IsSound rf
    on_disk : IsSaved rf
    past : All (IsPast rf) given

  IsPast-step :
      (rf rf' : Raft C) (new old : List Vote)
      → Keeps rf rf' new
      → All (IsPast rf) old
      → All (IsPast rf') old
  IsPast-step rf rf' new [] k h = tt
  IsPast-step rf rf' new (v ∷ vs) k (p, ps) = (one, IsPast-step rf rf' new vs k ps)
    where
      held : v.0 ≡ rf'.term → rf'.voted_for ≡ v.1
      held e =
          let same : rf'.term ≡ rf.term = omega (arith, k.term, p.0) in
          let mine = p.1 (e ∙ same) in
          elim (k.voted_for same) [
            | inl keeps ↦ keeps ∙ mine
            | inr free ↦ absurd (p.2 (sym mine ∙ free))
          ]

      one : IsPast rf' v
      one = (omega (arith, k.term, p.0), held, p.2)

  cast-IsPast : (rf : Raft C) (new : List Vote) → All (IsCast rf) new → All (IsPast rf) new
  cast-IsPast rf [] h = tt
  cast-IsPast rf (v ∷ vs) (c, cs) = ((omega (arith, c.0), λ _. c.1, c.2), cast-IsPast rf vs cs)

  -- A vote that is past and of the current term agrees with one that was just cast.
  agrees :
      (rf : Raft C) (v : Vote) (all : List Vote)
      → IsCast rf v
      → All (IsPast rf) all
      → All (λ (w : Vote). w.0 ≡ v.0 → w.1 ≡ v.1) all
  agrees rf v [] c h = tt
  agrees rf v (w ∷ ws) c (p, ps) = ((λ e. sym (p.1 (e ∙ c.0)) ∙ c.1), agrees rf v ws c ps)

  OneEach-append :
      (rf : Raft C) (new old : List Vote)
      → All (IsCast rf) new
      → All (IsPast rf) old
      → OneEach old
      → OneEach (new ++ old)
  OneEach-append rf [] old c p o = o
  OneEach-append rf (v ∷ vs) old (c, cs) p o = (
    agrees rf v (vs ++ old) c (All-append (IsPast rf) vs old (cast-IsPast rf vs cs) p),
    OneEach-append rf vs old cs p o,
  )

  Run-Held :
      {rf rf' : Raft C} {given : List Vote}
      → IsSound rf
      → IsSaved rf
      → Run rf given rf'
      → Held rf' given × OneEach given
  Run-Held s k here = (record { sound = s; on_disk = k; past = tt }, tt)
  Run-Held s k (next {given} {s = a} {t = b} run step e) =
      let (h, o) = Run-Held s k run in
      let j = Step-Keeps step h.sound h.on_disk in
      let old = IsPast-step a b (votes step) given j h.past in
      (
        record {
          sound = j.sound;
          on_disk = j.on_disk;
          past =
              rw e
                (All-append (IsPast b) (votes step) given (cast-IsPast b (votes step) j.cast) old);
        },
        rw e (OneEach-append b (votes step) given j.cast old o),
      )

  -- Over any run of a server from a sound state whose disk is current, with crashes and restarts at
  -- any point between two steps, two votes that it gave in one term went to the same candidate.
  pub Run-one_vote :
      {rf rf' : Raft C} {given : List Vote} (i j t : ℕ) (a b : ℤ)
      → IsSound rf
      → IsSaved rf
      → Run rf given rf'
      → get_elem? given i ≡ some (t, a)
      → get_elem? given j ≡ some (t, b)
      → a ≡ b
  Run-one_vote {given = given} i j t a b s k run p q =
      lookup-OneEach given i j (t, a) (t, b) (Run-Held s k run).1 p q refl

  -- After any such run the state is sound and the disk holds the current term, vote, log and snapshot.
  pub Run-IsSound :
      {rf rf' : Raft C} {given : List Vote}
      → IsSound rf
      → IsSaved rf
      → Run rf given rf'
      → IsSound rf' × IsSaved rf'
  Run-IsSound s k run = let (h, _) = Run-Held s k run in (h.sound, h.on_disk)

-- ===== src/Raft/Step/Tables.antt =====
-- raft/fns.go: the steps of a leader that only write its tables, and those of an election.
use pp.Prelude.{
  ℕ, zero, suc, ◌≡◌, refl, subst, ◌+◌, Bool, true, false, not, Option, none, some, List, [], length,
  ap, ◌==◌, >>=-eq-some, Bool-cases, inl, inr, arith,
}
use pp.Prelude.Int.{ℤ}
use pp.Raft.State.{
  Raft, RequestVoteReply, AppendEntriesArgs, AppendEntriesReply, InstallSnapshotArgs,
}
use pp.Raft.Persist.{joined, HasLog, msg_common-HasLog}
use pp.Raft.Election.{VoteCounter, Outcome, count_reply, poll}
use pp.Raft.Heartbeat.{
  Call, call_for, do_heartbeat, handle_append_reply, handle_install_reply, note_self, beat_one,
  beat, note_append, note_install, move_next, set_checked,
}
use pp.Raft.Step.Quiet.{
  Quiet, Quiet-trans, Quiet-refl, SameCore, SameCore-Quiet, joined-Quiet, becomes, first_of_pair,
}

module _ {C : Type 0} where
  tables :
      (rf : Raft C) (next : List ℤ) (at_server : List ℕ)
      → Quiet rf (record rf { next_for_server = next; at_server = at_server })
  tables rf next at_server = SameCore-Quiet (record {
    term = refl;
    voted_for = refl;
    log = refl;
    commit_idx = refl;
    applied_idx = refl;
    snapshot = refl;
    snapshot_index = refl;
    saved = refl;
  })

  clock : (rf : Raft C) (now : ℕ) → Quiet rf (record rf { ts = now })
  clock rf now = SameCore-Quiet (record {
    term = refl;
    voted_for = refl;
    log = refl;
    commit_idx = refl;
    applied_idx = refl;
    snapshot = refl;
    snapshot_index = refl;
    saved = refl;
  })

  move_next-Quiet :
      (j : ℕ) (n : Option ℤ) (rf rf' : Raft C) → move_next j n rf ≡ some rf' → Quiet rf rf'
  unfolding move_next
  move_next-Quiet j none rf rf' e = becomes (Quiet-refl rf) e
  move_next-Quiet j (some n) rf rf' e =
      let (next, _, e') = >>=-eq-some (set_checked rf.next_for_server j n) _ e in
      becomes (tables rf next rf.at_server) e'

  note_append-Quiet :
      (j : ℕ) (args : AppendEntriesArgs C) (reply : AppendEntriesReply) (rf rf' : Raft C)
      (res : Bool)
      → note_append j args reply rf res ≡ some rf'
      → Quiet rf rf'
  unfolding note_append
  note_append-Quiet j args reply rf rf' false e = becomes (Quiet-refl rf) e
  note_append-Quiet j args reply rf rf' true e = elim (Bool-cases (not reply.success)) [
    | inl refused ↦ move_next-Quiet j _ rf rf' (rw refused at e)
    | inr there ↦
        let (at_server, _, e₁) =
          >>=-eq-some (set_checked rf.at_server j (args.last_log_index + length args.entries)) _
            (rw there at e) in
        let (next, _, e₂) = >>=-eq-some (set_checked rf.next_for_server j _) _ e₁ in
        becomes (tables rf next at_server) e₂
  ]

  pub handle_append_reply-Quiet :
      (j : ℕ) (args : AppendEntriesArgs C) (reply : AppendEntriesReply) (rf rf' : Raft C)
      → HasLog rf
      → handle_append_reply j args reply rf ≡ some rf'
      → Quiet rf rf'
  unfolding handle_append_reply
  handle_append_reply-Quiet j args reply rf rf' h e = Quiet-trans (joined-Quiet reply.term rf) (
      note_append-Quiet j args reply (joined reply.term rf) rf' _
        (rw (msg_common-HasLog reply.term rf h) at e))

  note_install-Quiet :
      (j : ℕ) (args : InstallSnapshotArgs) (rf rf' : Raft C) (res : Bool)
      → note_install j args rf res ≡ some rf'
      → Quiet rf rf'
  unfolding note_install
  note_install-Quiet j args rf rf' false e = becomes (Quiet-refl rf) e
  note_install-Quiet j args rf rf' true e =
      let (next, _, e') = >>=-eq-some (set_checked rf.next_for_server j _) _ e in
      becomes (tables rf next rf.at_server) e'

  pub handle_install_reply-Quiet :
      (j : ℕ) (args : InstallSnapshotArgs) (term : ℕ) (rf rf' : Raft C)
      → HasLog rf
      → handle_install_reply j args term rf ≡ some rf'
      → Quiet rf rf'
  unfolding handle_install_reply
  handle_install_reply-Quiet j args term rf rf' h e =
      Quiet-trans (joined-Quiet term rf)
        (note_install-Quiet j args (joined term rf) rf' _ (rw (msg_common-HasLog term rf h) at e))

  note_self-Quiet : (rf rf' : Raft C) → note_self rf ≡ some rf' → Quiet rf rf'
  unfolding note_self
  note_self-Quiet rf rf' e =
      let (at_server, _, e₁) = >>=-eq-some (set_checked rf.at_server rf.me _) _ e in
      let (next, _, e₂) = >>=-eq-some (set_checked rf.next_for_server rf.me _) _ e₁ in
      becomes (tables rf next at_server) e₂

  beat_one-Quiet :
      (i : ℕ) (calls : List (Call C)) (rf : Raft C) (r : Raft C × List (Call C))
      → beat_one i calls rf ≡ some r
      → Quiet rf r.0
  unfolding beat_one
  beat_one-Quiet i calls rf r e = elim (Bool-cases (i == rf.me)) [
    | inl self ↦
        let (rf', made, e') = >>=-eq-some (note_self rf) _ (rw self at e) in
        becomes (note_self-Quiet rf rf' made) (first_of_pair e')
    | inr other ↦
        let (c, _, e') = >>=-eq-some (call_for i rf) _ (rw other at e) in
        becomes (Quiet-refl rf) (first_of_pair e')
  ]

  beat-Quiet :
      (n i : ℕ) (calls : List (Call C)) (rf : Raft C) (r : Raft C × List (Call C))
      → beat n i calls rf ≡ some r
      → Quiet rf r.0
  unfolding beat
  beat-Quiet zero i calls rf r e = becomes (Quiet-refl rf) (first_of_pair e)
  beat-Quiet (suc n) i calls rf r e =
      let (s, made, e') = >>=-eq-some (beat_one i calls rf) _ e in
      Quiet-trans (beat_one-Quiet i calls rf s made) (beat-Quiet n (suc i) s.1 s.0 r e')

  pub do_heartbeat-Quiet :
      (now : ℕ) (calls : List (Call C)) (rf rf' : Raft C)
      → do_heartbeat now rf ≡ some (rf', calls)
      → Quiet rf rf'
  unfolding do_heartbeat
  do_heartbeat-Quiet now calls rf rf' e =
      Quiet-trans (clock rf now) (beat-Quiet rf.peers 0 [] (record rf { ts = now }) (rf', calls) e)

  pub count_reply-Quiet :
      (reply : RequestVoteReply) (vc vc' : VoteCounter) (rf rf' : Raft C)
      → HasLog rf
      → count_reply reply rf vc ≡ some (rf', vc')
      → Quiet rf rf'
  unfolding count_reply
  count_reply-Quiet reply vc vc' rf rf' h e =
      becomes (joined-Quiet reply.term rf)
        (first_of_pair (rw (msg_common-HasLog reply.term rf h) at e))

  poll-SameCore : (vc : VoteCounter) (rf : Raft C) → SameCore rf (poll vc rf).0
  unfolding poll
  poll-SameCore vc rf = record {
    term = ground arith;
    voted_for = ground arith;
    log = ground arith;
    commit_idx = ground arith;
    applied_idx = ground arith;
    snapshot = ground arith;
    snapshot_index = ground arith;
    saved = ground arith;
  }

  pub poll-Quiet :
      (vc : VoteCounter) (o : Outcome) (rf rf' : Raft C) → poll vc rf ≡ (rf', o) → Quiet rf rf'
  poll-Quiet vc o rf rf' e =
      subst (λ r. Quiet rf r) (ap (λ (p : Raft C × Outcome). p.0) e)
        (SameCore-Quiet (poll-SameCore vc rf))

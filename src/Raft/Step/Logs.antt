-- ===== src/Raft/Step/Logs.antt =====
-- raft/raft.go, raft/fns.go: the steps that change the log, and those that commit.
use pp.Prelude.{
  ℕ, ◌≤◌, ◌≡◌, refl, sym, ◌∙◌, Bool, true, false, some, List, [], ◌∷◌, ◌++◌, map, ltb, >>=-eq-some,
  Bool-cases, inl, inr, arith, Returns-eq, ltb→lt, ltb→le,
}
use pp.Raft.State.{
  ApplyMsg, Raft, LogEntry, AppendEntriesArgs, AppendEntriesReply, InstallSnapshotArgs,
}
use pp.Raft.Log.{entry_at, IsTrimmed-append}
use pp.Raft.Persist.{joined, kept, to_save, make, HasLog, persist-HasLog, msg_common-HasLog}
use pp.Raft.Sound.{IsSound, IsSaved}
use pp.Raft.Restart.{make-Restarted}
use pp.Raft.Vote.{other_is_recent}
use pp.Raft.Append.{append_entries}
use pp.Raft.Append.Reply.{append_entries-AppendResult}
use pp.Raft.Snapshot.{
  do_install_snapshot, install_snapshot, install_if, cond_install_snapshot, snapshot_to,
}
use pp.Raft.Snapshot.Install.{
  installed, trimmed-IsTrimmed, do_install_snapshot-installed, do_install_snapshot-behind,
}
use pp.Raft.Start.{Started, is_leader, accept_command, start}
use pp.Raft.Step.Quiet.{
  Quiet, Quiet-trans, Quiet-refl, SameCore-Quiet, joined-Quiet, becomes, first_of_pair,
}

module _ {C : Type 0} where
  pub append_entries-Quiet :
      (now : ℕ) (args : AppendEntriesArgs C) (reply : AppendEntriesReply) (rf rf' : Raft C)
      → IsSound rf
      → append_entries now args rf ≡ some (rf', reply)
      → Quiet rf rf'
  append_entries-Quiet now args reply rf rf' s e =
      let r =
        Returns-eq (append_entries now args rf) (append_entries-AppendResult now args rf s) e in
      record {
        sound = λ _. r.sound;
        on_disk = r.on_disk;
        term = elim (Bool-cases (ltb args.term rf.term)) [
          | inl old ↦ let p = r.stale (ltb→lt _ _ old) in ground arith
          | inr new ↦ let le = ltb→le _ _ new in let p = r.term le in omega arith
        ];
        voted_for = r.voted_for;
      }

  messaged :
      (rf : Raft C) (now : ℕ) (ms : List (ApplyMsg C))
      → Quiet rf (record rf { ts = now; disam = ms })
  messaged rf now ms = SameCore-Quiet (record {
    term = refl;
    voted_for = refl;
    log = refl;
    commit_idx = refl;
    applied_idx = refl;
    snapshot = refl;
    snapshot_index = refl;
    saved = refl;
  })

  pub install_snapshot-Quiet :
      (now : ℕ) (args : InstallSnapshotArgs) (reply : ℕ) (rf rf' : Raft C)
      → HasLog rf
      → install_snapshot now args rf ≡ some (rf', reply)
      → Quiet rf rf'
  unfolding install_snapshot
  install_snapshot-Quiet now args reply rf rf' h e =
      let e' = rw (msg_common-HasLog args.term rf h) at e in
      let q = joined-Quiet args.term rf in
      elim (Bool-cases (ltb args.term (joined args.term rf).term)) [
        | inl old ↦ becomes q (first_of_pair (rw old at e'))
        | inr new ↦
            becomes (Quiet-trans q (messaged (joined args.term rf) now _))
              (first_of_pair (rw new at e'))
      ]

  installed-Quiet :
      (index term : ℕ) (snapshot : List ℕ) (change : Bool) (rf : Raft C)
      → rf.snapshot_index ≤ index
      → (change ≡ false → index ≤ rf.applied_idx)
      → HasLog rf
      → Quiet rf (kept (installed index term snapshot change rf))
  unfolding to_save
  installed-Quiet index term snapshot true rf le fits h = record {
    sound = λ s. record {
      log = trimmed-IsTrimmed index term rf.snapshot_index rf.log h le;
      committed = omega arith;
      applied = refl;
    };
    on_disk = λ _. refl;
    term = omega arith;
    voted_for = refl;
  }
  installed-Quiet index term snapshot false rf le fits h = record {
    sound = λ s. record {
      log = trimmed-IsTrimmed index term rf.snapshot_index rf.log h le;
      committed = omega (arith, s.applied, fits refl);
      applied = s.applied;
    };
    on_disk = λ _. refl;
    term = omega arith;
    voted_for = refl;
  }

  do_install_snapshot-Quiet :
      (index term : ℕ) (snapshot : List ℕ) (change : Bool) (rf rf' : Raft C)
      → (change ≡ false → index ≤ rf.applied_idx)
      → HasLog rf
      → do_install_snapshot index term snapshot change rf ≡ some rf'
      → Quiet rf rf'
  do_install_snapshot-Quiet index term snapshot change rf rf' fits h e =
      elim (Bool-cases (ltb index rf.snapshot_index)) [
        | inl behind ↦
            let p =
              do_install_snapshot-behind index term snapshot change rf h (ltb→lt _ _ behind) in
            cc
        | inr ahead ↦
            let le = ltb→le _ _ ahead in
            becomes (installed-Quiet index term snapshot change rf le fits h)
              (sym (do_install_snapshot-installed index term snapshot change rf h le) ∙ e)
      ]

  install_if-Quiet :
      (term index : ℕ) (snapshot : List ℕ) (done recent : Bool) (rf rf' : Raft C)
      → HasLog rf
      → install_if term index snapshot rf recent ≡ some (rf', done)
      → Quiet rf rf'
  unfolding install_if
  install_if-Quiet term index snapshot done false rf rf' h e =
      becomes (Quiet-refl rf) (first_of_pair e)
  install_if-Quiet term index snapshot done true rf rf' h e =
      let (r, made, e') = >>=-eq-some (do_install_snapshot index term snapshot true rf) _ e in
      becomes (do_install_snapshot-Quiet index term snapshot true rf r (λ k. cc) h made)
        (first_of_pair e')

  pub cond_install_snapshot-Quiet :
      (term index : ℕ) (snapshot : List ℕ) (done : Bool) (rf rf' : Raft C)
      → HasLog rf
      → cond_install_snapshot term index snapshot rf ≡ some (rf', done)
      → Quiet rf rf'
  unfolding cond_install_snapshot
  cond_install_snapshot-Quiet term index snapshot done rf rf' h e =
      let (recent, _, e') = >>=-eq-some (other_is_recent rf index term) _ e in
      install_if-Quiet term index snapshot done recent rf rf' h e'

  pub snapshot_to-Quiet :
      (index : ℕ) (snapshot : List ℕ) (rf rf' : Raft C)
      → HasLog rf
      → index ≤ rf.applied_idx
      → snapshot_to index snapshot rf ≡ some rf'
      → Quiet rf rf'
  unfolding snapshot_to
  snapshot_to-Quiet index snapshot rf rf' h le e =
      let (entry, _, e') = >>=-eq-some (entry_at rf.log index) _ e in
      do_install_snapshot-Quiet index entry.term snapshot false rf rf' (λ _. le) h e'

  relogged-Quiet :
      (rf : Raft C) (es : List (LogEntry C)) (b : Bool)
      → HasLog rf
      → Quiet rf (record (kept (record rf { log = rf.log ++ map some es })) { msg_flag = b })
  unfolding to_save
  relogged-Quiet rf es b h = record {
    sound = λ s. record {
      log = IsTrimmed-append rf.snapshot_index rf.log es h;
      committed = s.committed;
      applied = s.applied;
    };
    on_disk = λ _. refl;
    term = omega arith;
    voted_for = refl;
  }

  accept_command-Quiet :
      (b : Bool) (cmd : C) (reply : Started) (rf rf' : Raft C)
      → HasLog rf
      → accept_command b cmd rf ≡ some (rf', reply)
      → Quiet rf rf'
  unfolding accept_command
  accept_command-Quiet false cmd reply rf rf' h e = becomes (Quiet-refl rf) (first_of_pair e)
  accept_command-Quiet true cmd reply rf rf' h e =
      let new : LogEntry C = record { term = rf.term; cmd = some cmd } in
      let r : Raft C = record rf { log = rf.log ++ some new ∷ [] } in
      let p = persist-HasLog r (IsTrimmed-append rf.snapshot_index rf.log (new ∷ []) h) in
      becomes (relogged-Quiet rf (new ∷ []) true h) (first_of_pair (rw p at e))

  pub start-Quiet :
      (cmd : C) (reply : Started) (rf rf' : Raft C)
      → HasLog rf
      → start cmd rf ≡ some (rf', reply)
      → Quiet rf rf'
  unfolding start
  start-Quiet cmd reply rf rf' h e = accept_command-Quiet (is_leader rf.st) cmd reply rf rf' h e

  pub make-Quiet :
      (rf rf' : Raft C)
      → IsSound rf
      → IsSaved rf
      → make rf.peers rf.me rf.saved ≡ some rf'
      → Quiet rf rf'
  make-Quiet rf rf' s k e =
      let r = Returns-eq (make rf.peers rf.me rf.saved) (make-Restarted rf.peers rf.me rf s k) e in
      record {
        sound = λ _. r.sound;
        on_disk = λ _. r.on_disk;
        term = omega (arith, r.term);
        voted_for = r.voted_for;
      }

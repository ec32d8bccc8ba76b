-- ===== src/Kvraft/Command/Once.antt =====
-- kvraft/server.go: a command that is committed again is not done again.
use pp.Prelude.{
  ℕ, ◌≡◌, ◌≢◌, refl, ◌∙◌, ap, Bool, true, false, Option, none, some, arith, ◌==◌, ◌>>=◌,
  >>=-eq-some, some-cancel, Bool-cases, inl, inr,
}
use mathlib.Core.Path.{sym, subst}
use pp.Kvraft.State.{RequestArgs, StringMap, without, Snapshot, KvServer}
use pp.Kvraft.Lock.{check_hold_lock, commit_op}
use pp.Kvraft.Command.{
  note_last, add_new, record_command, mark_failed, write_command, apply_command,
}

-- Between two commands nothing waits to be written.
abbrev pub AllWritten : Snapshot → Type 0
AllWritten maps = (n : ℕ) → maps.unwritten n ≡ false

-- The command was recorded and done, and its client sent nothing newer.
abbrev pub Seen : RequestArgs → Snapshot → Type 0
Seen cmd maps =
    AllWritten maps × (maps.last cmd.client_id ≡ some cmd.seq) × (maps.unseen cmd.seq ≡ true)

record_command-Seen :
    (cmd : RequestArgs) (maps : Snapshot) → Seen cmd maps → record_command cmd maps ≡ maps
unfolding record_command note_last add_new
record_command-Seen cmd maps (w, l, u) =
    let k : (cmd.seq == cmd.seq) ≡ true = ground arith in rw (l, k, w cmd.seq, u)

-- A command that was done and is committed again, its client having sent nothing newer, changes no
-- map, is published again, and does not panic; its code then says whether its client holds the lock at that time.
pub apply_command-again :
    (index : ℕ) (cmd : RequestArgs) (kv : KvServer)
    → Seen cmd kv.maps
    → apply_command index cmd kv
      ≡ some (record kv { topidx = index }, mark_failed (check_hold_lock cmd kv.kvm) cmd, true)
unfolding apply_command write_command
apply_command-again index cmd kv (w, l, u) =
    rw (record_command-Seen cmd kv.maps (w, l, u), w cmd.seq, u)

-- What the bookkeeping leaves, where nothing waited to be written.
pub record Recorded (cmd : RequestArgs) (maps maps' : Snapshot) : Type 0 where
  pub others_written : (n : ℕ) → n ≢ cmd.seq → maps'.unwritten n ≡ false
  pub own_last : maps'.last cmd.client_id ≡ some cmd.seq
  pub other_last : (c : ℕ) → c ≢ cmd.client_id → maps'.last c ≡ maps.last c
  pub own_unseen : maps'.unseen cmd.seq ≡ true
  pub other_unseen :
      (n : ℕ) → n ≢ cmd.seq → maps.last cmd.client_id ≢ some n → maps'.unseen n ≡ maps.unseen n

note_last-last :
    (cmd : RequestArgs) (l : Option ℕ) (maps : Snapshot)
    → maps.last cmd.client_id ≡ l
    → (note_last cmd l maps).last cmd.client_id ≡ some cmd.seq
unfolding note_last
note_last-last cmd none maps e = ground arith
note_last-last cmd (some v) maps e = ground arith

note_last-ne :
    (cmd : RequestArgs) (l : Option ℕ) (maps : Snapshot) (c : ℕ)
    → c ≢ cmd.client_id
    → (note_last cmd l maps).last c ≡ maps.last c
unfolding note_last
note_last-ne cmd none maps c n = ground arith
note_last-ne cmd (some v) maps c n = ground arith

note_last-unwritten :
    (cmd : RequestArgs) (l : Option ℕ) (maps : Snapshot)
    → (note_last cmd l maps).unwritten ≡ maps.unwritten
unfolding note_last
note_last-unwritten cmd none maps = refl
note_last-unwritten cmd (some v) maps = ground arith

note_last-unseen :
    (cmd : RequestArgs) (l : Option ℕ) (maps : Snapshot) (n : ℕ)
    → l ≢ some n
    → (note_last cmd l maps).unseen n ≡ maps.unseen n
unfolding note_last
note_last-unseen cmd none maps n d = refl
note_last-unseen cmd (some v) maps n d = let k : v ≢ n = λ e. d (ap some e) in ground arith

add_new-unwritten :
    (cmd : RequestArgs) (maps : Snapshot) (n : ℕ)
    → n ≢ cmd.seq
    → (add_new cmd maps).unwritten n ≡ maps.unwritten n
unfolding add_new
add_new-unwritten cmd maps n d = ground arith

add_new-unseen :
    (cmd : RequestArgs) (maps : Snapshot) (n : ℕ)
    → n ≢ cmd.seq
    → (add_new cmd maps).unseen n ≡ maps.unseen n
unfolding add_new
add_new-unseen cmd maps n d = ground arith

add_new-own :
    (cmd : RequestArgs) (maps : Snapshot)
    → maps.unwritten cmd.seq ≡ false
    → (add_new cmd maps).unseen cmd.seq ≡ true
unfolding add_new
add_new-own cmd maps w = ground arith

add_new-last : (cmd : RequestArgs) (maps : Snapshot) → (add_new cmd maps).last ≡ maps.last
unfolding add_new
add_new-last cmd maps = ground arith

pub record_command-Recorded :
    (cmd : RequestArgs) (maps : Snapshot)
    → AllWritten maps
    → Recorded cmd maps (record_command cmd maps)
unfolding record_command
record_command-Recorded cmd maps w =
    let noted = note_last cmd (maps.last cmd.client_id) maps in
    let u : (n : ℕ) → noted.unwritten n ≡ false =
      λ n. ap (λ f. f n) (note_last-unwritten cmd (maps.last cmd.client_id) maps) ∙ w n in
    let l : (c : ℕ) → (add_new cmd noted).last c ≡ noted.last c =
      λ c. ap (λ f. f c) (add_new-last cmd noted) in
    record {
      others_written = λ n d. add_new-unwritten cmd noted n d ∙ u n;
      own_last = l cmd.client_id ∙ note_last-last cmd (maps.last cmd.client_id) maps refl;
      other_last = λ c d. l c ∙ note_last-ne cmd (maps.last cmd.client_id) maps c d;
      own_unseen = add_new-own cmd noted (u cmd.seq);
      other_unseen = λ n d e.
          add_new-unseen cmd noted n d ∙ note_last-unseen cmd (maps.last cmd.client_id) maps n e;
    }

-- What doing the command leaves of the bookkeeping.
abbrev pub Written : Snapshot → Snapshot × RequestArgs → Type 0
Written maps r = AllWritten r.0 × (r.0.last ≡ maps.last) × (r.0.unseen ≡ maps.unseen)

pub write_command-Written :
    (cmd : RequestArgs) (maps : Snapshot) (r : Snapshot × RequestArgs)
    → ((n : ℕ) → n ≢ cmd.seq → maps.unwritten n ≡ false)
    → write_command cmd maps ≡ some r
    → Written maps r
unfolding write_command
write_command-Written cmd maps r w h = elim (Bool-cases (maps.unwritten cmd.seq)) [
  | inl e ↦
      let f : StringMap × Bool → Option (Snapshot × RequestArgs) = λ p. some (
        record maps { kvm = p.0; unwritten = without maps.unwritten cmd.seq },
        mark_failed p.1 cmd,
      ) in
      let k : (commit_op cmd maps.kvm >>= f) ≡ some r = rw (sym h, e) in
      let (p, _, q) = >>=-eq-some (commit_op cmd maps.kvm) f k in
      let a : AllWritten (record maps { kvm = p.0; unwritten = without maps.unwritten cmd.seq }) =
        λ n. ground (arith, w n) in
      subst (Written maps) (some-cancel q) (a, refl, refl)
  | inr e ↦
      let k : some (maps, mark_failed (check_hold_lock cmd maps.kvm) cmd) ≡ some r =
        rw (sym h, e) in
      let a : AllWritten maps = λ n. ground (arith, w n) in
      subst (Written maps) (some-cancel k) (a, refl, refl)
]

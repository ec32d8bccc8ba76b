-- ===== src/Kvraft/Command/Repeat.antt =====
-- kvraft/server.go: a command is done once however often it is committed, while its client sends
-- nothing newer.
use pp.Prelude.{
  ℕ, ◌≡◌, ◌≢◌, ◌∙◌, ap, Bool, true, Option, some, ◌==◌, >>=-eq-some, arith, some-cancel, Bool-cases,
  inl, inr,
}
use mathlib.Core.Path.{sym, subst}
use pp.Kvraft.State.{RequestArgs, Snapshot, KvServer}
use pp.Kvraft.Lock.{check_hold_lock}
use pp.Kvraft.Command.{record_command, write_command, apply_command, mark_failed}
use pp.Kvraft.Command.Once.{
  AllWritten, Seen, Recorded, record_command-Recorded, write_command-Written, apply_command-again,
}

-- No other client's last command has the number.
abbrev pub Private : RequestArgs → Snapshot → Type 0
Private cmd maps = (c : ℕ) → c ≢ cmd.client_id → maps.last c ≢ some cmd.seq

-- A command of another client, with another number.
abbrev pub Other : RequestArgs → RequestArgs → Type 0
Other cmd other = (other.client_id ≢ cmd.client_id) × (other.seq ≢ cmd.seq)

-- The two steps of a command.
split_command :
    (index : ℕ) (cmd : RequestArgs) (kv kv' : KvServer) (cmd' : RequestArgs) (p : Bool)
    → apply_command index cmd kv ≡ some (kv', cmd', p)
    → (r : Snapshot × RequestArgs) × (write_command cmd (record_command cmd kv.maps) ≡ some r)
      × (kv'.maps ≡ r.0)
unfolding apply_command
split_command index cmd kv kv' cmd' p h =
    let f : Snapshot × RequestArgs → Option (KvServer × RequestArgs × Bool) =
      λ r. some (record kv { maps = r.0; topidx = index }, r.1, r.0.unseen cmd.seq) in
    let (r, e, q) = >>=-eq-some (write_command cmd (record_command cmd kv.maps)) f h in
    (r, e, ap (λ t. t.0.maps) (sym (some-cancel q)))

-- What a command leaves of the bookkeeping.
apply_command-Recorded :
    (index : ℕ) (cmd : RequestArgs) (kv kv' : KvServer) (cmd' : RequestArgs) (p : Bool)
    → AllWritten kv.maps
    → apply_command index cmd kv ≡ some (kv', cmd', p)
    → AllWritten kv'.maps × Recorded cmd kv.maps kv'.maps
apply_command-Recorded index cmd kv kv' cmd' p w h =
    let (r, e, q) = split_command index cmd kv kv' cmd' p h in
    let k = record_command-Recorded cmd kv.maps w in
    let (a, l, u) = write_command-Written cmd (record_command cmd kv.maps) r k.others_written e in
    let both : AllWritten r.0 × Recorded cmd kv.maps r.0 = (
      a,
      record {
        others_written = λ n d. a n;
        own_last = ap (λ f. f cmd.client_id) l ∙ k.own_last;
        other_last = λ c d. ap (λ f. f c) l ∙ k.other_last c d;
        own_unseen = ap (λ f. f cmd.seq) u ∙ k.own_unseen;
        other_unseen = λ n d m. ap (λ f. f n) u ∙ k.other_unseen n d m;
      },
    ) in
    subst (λ m. AllWritten m × Recorded cmd kv.maps m) (sym q) both

first-Seen :
    (index : ℕ) (cmd : RequestArgs) (kv kv' : KvServer) (cmd' : RequestArgs) (p : Bool)
    → AllWritten kv.maps
    → Private cmd kv.maps
    → apply_command index cmd kv ≡ some (kv', cmd', p)
    → Seen cmd kv'.maps × Private cmd kv'.maps
first-Seen index cmd kv kv' cmd' p w only h =
    let (a, k) = apply_command-Recorded index cmd kv kv' cmd' p w h in
    ((a, k.own_last, k.own_unseen), λ c d e. only c d (sym (k.other_last c d) ∙ e))

still-ne :
    (cmd other : RequestArgs) (c : ℕ) (m m' : Snapshot)
    → Recorded other m m'
    → other.seq ≢ cmd.seq
    → m.last c ≢ some cmd.seq
    → m'.last c ≢ some cmd.seq
still-ne cmd other c m m' k ds n e = elim (Bool-cases (c == other.client_id)) [
  | inl i ↦
      let j : c ≡ other.client_id = ground (arith, i) in
      let q : m'.last c ≡ some other.seq = rw j k.own_last in ds (some-cancel (sym q ∙ e))
  | inr i ↦ let d : c ≢ other.client_id = ground (arith, i) in n (sym (k.other_last c d) ∙ e)
]

Other-Seen :
    (index : ℕ) (cmd other : RequestArgs) (kv kv' : KvServer) (other' : RequestArgs) (p : Bool)
    → Other cmd other
    → Seen cmd kv.maps × Private cmd kv.maps
    → apply_command index other kv ≡ some (kv', other', p)
    → Seen cmd kv'.maps × Private cmd kv'.maps
Other-Seen index cmd other kv kv' other' p (dc, ds) ((w, l, u), only) h =
    let (a, k) = apply_command-Recorded index other kv kv' other' p w h in
    let seen : Seen cmd kv'.maps = (
      a,
      k.other_last cmd.client_id (λ e. dc (sym e)) ∙ l,
      k.other_unseen cmd.seq (λ e. ds (sym e)) (only other.client_id dc) ∙ u,
    ) in
    (seen, λ c d. still-ne cmd other c kv.maps kv'.maps k ds (only c d))

-- What may follow: repeats of the command, and commands of other clients with other numbers.
pub data Later (cmd : RequestArgs) : RequestArgs → Type 0 where
  again : Later cmd cmd
  other : {o : RequestArgs} → Other cmd o → Later cmd o

-- A run of commands, each at its index.
pub data Commands (cmd : RequestArgs) : KvServer → KvServer → Type 0 where
  finished : {kv : KvServer} → Commands cmd kv kv
  command :
      {kv kv' kv'' : KvServer} {o o' : RequestArgs} {p : Bool} (index : ℕ)
      → Later cmd o
      → apply_command index o kv ≡ some (kv', o', p)
      → Commands cmd kv' kv''
      → Commands cmd kv kv''

Later-Seen :
    (index : ℕ) (cmd : RequestArgs) {o : RequestArgs} (kv kv' : KvServer) (o' : RequestArgs)
    (p : Bool)
    → Later cmd o
    → Seen cmd kv.maps × Private cmd kv.maps
    → apply_command index o kv ≡ some (kv', o', p)
    → Seen cmd kv'.maps × Private cmd kv'.maps
Later-Seen index cmd kv kv' o' p again (s, only) h = first-Seen index cmd kv kv' o' p s.0 only h
Later-Seen index cmd kv kv' o' p (other d) s h = Other-Seen index cmd _ kv kv' o' p d s h

Commands-Seen :
    (cmd : RequestArgs) {kv kv' : KvServer}
    → Commands cmd kv kv'
    → Seen cmd kv.maps × Private cmd kv.maps
    → Seen cmd kv'.maps × Private cmd kv'.maps
Commands-Seen cmd finished s = s
Commands-Seen cmd (command {o' = o'} {p = p} index l h rest) s =
    Commands-Seen cmd rest (Later-Seen index cmd _ _ o' p l s h)

-- After a command was done on maps where nothing waits to be written and no other client's last command has its
-- number, and after any run of repeats of it and of commands of other clients with other numbers, a further repeat
-- changes none of the maps, does not panic, and is published again, its code saying whether its client
-- holds the lock then.
pub apply_command-once :
    (index index' : ℕ) (cmd : RequestArgs) (kv kv' kv'' : KvServer) (cmd' : RequestArgs) (p : Bool)
    → AllWritten kv.maps
    → Private cmd kv.maps
    → apply_command index cmd kv ≡ some (kv', cmd', p)
    → Commands cmd kv' kv''
    → apply_command index' cmd kv''
      ≡ some (record kv'' { topidx = index' }, mark_failed (check_hold_lock cmd kv''.kvm) cmd, true)
apply_command-once index index' cmd kv kv' kv'' cmd' p w only h run =
    apply_command-again index' cmd kv''
      (Commands-Seen cmd run (first-Seen index cmd kv kv' cmd' p w only h)).0

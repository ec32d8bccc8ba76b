-- ===== src/Kvraft/Lock/Effect.antt =====
-- kvraft/server.go: what `commitOp` does for other clients after a lock was taken.
use pp.Prelude.{
  ◌≤◌, ◌≡◌, refl, ◌∙◌, Bool, true, false, Option, some, [], get_elem?, ◌==◌, if◌then◌else◌, ◌>>=◌,
  Returns, >>=-eq-some, some-cancel, Bool-cases, inl, inr,
}
use mathlib.Core.Path.{sym, subst}
use pp.Text.{Bytes, beq, split}
use pp.Text.Decimal.{max_u64}
use pp.Kvraft.State.{
  OpCode, get, put, append, acquire, release, renew, failing_acquire, failing_locked, RequestArgs,
  StringMap, store, store_self, or_empty,
}
use pp.Kvraft.Lock.{
  slash, lock_key, lock_value, check_hold_lock, lease_over, try_acquire, if_held, by_code,
  commit_op,
}
use pp.Kvraft.Lock.Owner.{check_hold_lock-lock_value}

-- The operations that only the lock's holder may do.
abbrev pub needs_lock : OpCode → Bool
needs_lock get = true
needs_lock put = true
needs_lock append = true
needs_lock acquire = false
needs_lock release = true
needs_lock renew = true
needs_lock failing_acquire = false
needs_lock failing_locked = false

abbrev pub takes_lock : OpCode → Bool
takes_lock get = false
takes_lock put = false
takes_lock append = false
takes_lock acquire = true
takes_lock release = false
takes_lock renew = true
takes_lock failing_acquire = false
takes_lock failing_locked = false

-- An operation is done exactly when the test is passed, and a refused one changes nothing.
abbrev pub DoneIf : Bool → StringMap → StringMap × Bool → Type 0
DoneIf b kvm r = (r.1 ≡ b) × (b ≡ false → r.0 ≡ kvm)

if_held-DoneIf :
    (cmd : RequestArgs) (kvm kvm' : StringMap)
    → DoneIf (check_hold_lock cmd kvm) kvm (if_held cmd kvm kvm')
unfolding if_held
if_held-DoneIf cmd kvm kvm' = elim (Bool-cases (check_hold_lock cmd kvm)) [
  | inl e ↦ rw e (refl, λ h. cc)
  | inr e ↦ rw e (refl, λ h. refl)
]

by_code-DoneIf :
    (code : OpCode) (cmd : RequestArgs) (kvm : StringMap)
    → needs_lock code ≡ true
    → Returns (by_code code cmd kvm) (DoneIf (check_hold_lock cmd kvm) kvm)
unfolding by_code
by_code-DoneIf get cmd kvm h = (_, refl, if_held-DoneIf cmd kvm _)
by_code-DoneIf put cmd kvm h = (_, refl, if_held-DoneIf cmd kvm _)
by_code-DoneIf append cmd kvm h = (_, refl, if_held-DoneIf cmd kvm _)
by_code-DoneIf acquire cmd kvm h = cc
by_code-DoneIf release cmd kvm h = (_, refl, if_held-DoneIf cmd kvm _)
by_code-DoneIf renew cmd kvm h = (_, refl, if_held-DoneIf cmd kvm _)
by_code-DoneIf failing_acquire cmd kvm h = cc
by_code-DoneIf failing_locked cmd kvm h = cc

-- `get`, `put`, `append`, `release` and `renew` do not panic, are done exactly when the caller holds the
-- lock of the key, and otherwise leave the map as it is.
pub commit_op-DoneIf :
    (cmd : RequestArgs) (kvm : StringMap)
    → needs_lock cmd.code ≡ true
    → Returns (commit_op cmd kvm) (DoneIf (check_hold_lock cmd kvm) kvm)
unfolding commit_op
commit_op-DoneIf cmd kvm h = by_code-DoneIf cmd.code cmd kvm h

-- Where the operation was done, the lock of its key is stored for its client.
abbrev pub Takes : RequestArgs → StringMap × Bool → Type 0
Takes cmd r = r.1 ≡ true → r.0 (lock_key cmd.key) ≡ some (lock_value cmd)

taken : RequestArgs → StringMap → StringMap × Bool
taken cmd kvm = (store kvm (lock_key cmd.key) (lock_value cmd), true)

taken-Takes : (cmd : RequestArgs) (kvm : StringMap) → Takes cmd (taken cmd kvm)
unfolding taken
taken-Takes cmd kvm h = store_self kvm (lock_key cmd.key) (lock_value cmd)

if-Takes :
    (cmd : RequestArgs) (kvm : StringMap) (b : Bool)
    → Takes cmd (if b then taken cmd kvm else (kvm, false))
unfolding taken
if-Takes cmd kvm true = taken-Takes cmd kvm
if-Takes cmd kvm false = λ h. cc

becomes-Takes :
    (cmd : RequestArgs) {o : Option (StringMap × Bool)} {a r : StringMap × Bool}
    → Takes cmd a
    → o ≡ some a
    → o ≡ some r
    → Takes cmd r
becomes-Takes cmd t e h = subst (Takes cmd) (some-cancel (sym e ∙ h)) t

try_acquire-Takes :
    (cmd : RequestArgs) (kvm : StringMap) (r : StringMap × Bool)
    → try_acquire cmd kvm ≡ some r
    → Takes cmd r
unfolding try_acquire taken
try_acquire-Takes cmd kvm r h = elim (Bool-cases (beq (or_empty (kvm (lock_key cmd.key))) [])) [
  | inl e ↦ becomes-Takes cmd {a = taken cmd kvm} (taken-Takes cmd kvm) (rw e) h
  | inr e ↦
      let parts = split slash (or_empty (kvm (lock_key cmd.key))) in
      let f : Bytes → Option (StringMap × Bool) =
        λ then_. some (if lease_over cmd.value then_ then taken cmd kvm else (kvm, false)) in
      let k : (get_elem? parts 1 >>= f) ≡ some r = rw (sym h, e) in
      let (then_, _, q) = >>=-eq-some (get_elem? parts 1) f k in
      becomes-Takes cmd {a = if lease_over cmd.value then_ then taken cmd kvm else (kvm, false)}
        (if-Takes cmd kvm (lease_over cmd.value then_)) refl q
]

by_code-Takes :
    (code : OpCode) (cmd : RequestArgs) (kvm : StringMap) (r : StringMap × Bool)
    → takes_lock code ≡ true
    → by_code code cmd kvm ≡ some r
    → Takes cmd r
unfolding by_code if_held taken
by_code-Takes acquire cmd kvm r t h = try_acquire-Takes cmd kvm r h
by_code-Takes renew cmd kvm r t h =
    becomes-Takes cmd (if-Takes cmd kvm (check_hold_lock cmd kvm)) refl h
by_code-Takes get cmd kvm r t h = cc
by_code-Takes put cmd kvm r t h = cc
by_code-Takes append cmd kvm r t h = cc
by_code-Takes release cmd kvm r t h = cc
by_code-Takes failing_acquire cmd kvm r t h = cc
by_code-Takes failing_locked cmd kvm r t h = cc

pub commit_op-Takes :
    (cmd : RequestArgs) (kvm : StringMap) (r : StringMap × Bool)
    → takes_lock cmd.code ≡ true
    → commit_op cmd kvm ≡ some r
    → Takes cmd r
unfolding commit_op
commit_op-Takes cmd kvm r t h = by_code-Takes cmd.code cmd kvm r t h

-- Right after an `acquire` or `renew` that was done for a client with a number of 64 bits, any operation on the same
-- key that needs the lock does not panic, is done for that client, and is refused for every other
-- client, the map left as it is.
pub commit_op-exclusive :
    (cmd other : RequestArgs) (kvm kvm' : StringMap)
    → cmd.client_id ≤ max_u64
    → takes_lock cmd.code ≡ true
    → commit_op cmd kvm ≡ some (kvm', true)
    → other.key ≡ cmd.key
    → needs_lock other.code ≡ true
    → Returns (commit_op other kvm') (DoneIf (cmd.client_id == other.client_id) kvm')
commit_op-exclusive cmd other kvm kvm' small t h k n =
    let at : kvm' (lock_key other.key) ≡ some (lock_value cmd) =
      rw k (commit_op-Takes cmd kvm (kvm', true) t h refl) in
    let b : check_hold_lock other kvm' ≡ (cmd.client_id == other.client_id) =
      check_hold_lock-lock_value cmd other kvm' small at in
    subst (λ b. Returns (commit_op other kvm') (DoneIf b kvm')) b (commit_op-DoneIf other kvm' n)

-- ===== src/Kvraft/Lock.antt =====
-- kvraft/server.go: `checkHoldLock` and `commitOp`. The lock of a key is an entry of the same map.
pub mod Owner
pub mod Effect
pub mod Lease
use pp.Prelude.{
  ℕ, ◌+◌, ◌-◌, ◌^◌, Bool, true, false, not, Option, none, some, List, [], ◌∷◌, ◌++◌, get_elem?, ltb,
  leb, ◌==◌, if◌then◌else◌, ◌>>=◌,
}
use pp.Prelude.Int.{ℤ, pos, negsuc}
use pp.Text.{Bytes, codes, beq, split}
use pp.Text.Decimal.{format, parse_uint0, atoi, two64}
use pp.Kvraft.State.{
  OpCode, get, put, append, acquire, release, renew, failing_acquire, failing_locked, RequestArgs,
  StringMap, store, or_empty, Snapshot,
}

abbrev pub slash : ℕ
slash = b'/'

abbrev pub lock_key : Bytes → Bytes
lock_key key = codes "lock_" ++ key

abbrev pub lock_lease_time : ℕ
lock_lease_time = 30

unfoldable pub first_part : List Bytes → Bytes
first_part [] = []
first_part (p ∷ ps) = p

-- The client whose number stands before the first slash holds the lock.
unfoldable pub check_hold_lock : RequestArgs → StringMap → Bool
unfolding first_part
check_hold_lock cmd kvm =
    let ov = or_empty (kvm (lock_key cmd.key)) in
    if beq ov [] then false else parse_uint0 (first_part (split slash ov)) == cmd.client_id

abbrev two63 : ℕ
two63 = 2 ^ 63

-- nt - ts > n, for numbers of 64 bits: the difference wraps around.
unfoldable pub minus : ℕ → ℕ → ℤ
minus a b = if leb b a then pos (a - b) else negsuc (b - a - 1)

unfoldable pub sub_int : ℤ → ℤ → ℤ
unfolding minus
sub_int (pos a) (pos b) = minus a b
sub_int (pos a) (negsuc b) = pos (a + b + 1)
sub_int (negsuc a) (pos b) = negsuc (a + b)
sub_int (negsuc a) (negsuc b) = minus b a

unfoldable pub exceeds : ℕ → ℤ → Bool
exceeds n (pos d) = if ltb d two63 then ltb n d else false
exceeds n (negsuc d) = if ltb d two63 then false else ltb n (two64 - (d + 1))

unfoldable pub lease_over : Bytes → Bytes → Bool
unfolding exceeds sub_int
lease_over now then_ = exceeds lock_lease_time (sub_int (atoi now) (atoi then_))

-- What is stored for a lock: the client and the time.
abbrev pub lock_value : RequestArgs → Bytes
lock_value cmd = format cmd.client_id ++ slash ∷ cmd.value

-- `none` is a panic. The result says whether the operation was done; `false` is an error.
unfoldable pub try_acquire : RequestArgs → StringMap → Option (StringMap × Bool)
try_acquire cmd kvm =
    let ov = or_empty (kvm (lock_key cmd.key)) in
    let taken = store kvm (lock_key cmd.key) (lock_value cmd) in
    if beq ov [] then some (taken, true) else (do
      then_ ← get_elem? (split slash ov) 1
      some (if lease_over cmd.value then_ then (taken, true) else (kvm, false)))

-- An operation for the lock's holder only.
unfoldable pub if_held : RequestArgs → StringMap → StringMap → StringMap × Bool
if_held cmd kvm kvm' = if check_hold_lock cmd kvm then (kvm', true) else (kvm, false)

unfoldable pub by_code : OpCode → RequestArgs → StringMap → Option (StringMap × Bool)
unfolding if_held try_acquire
by_code get cmd kvm = some (if_held cmd kvm kvm)
by_code put cmd kvm = some (if_held cmd kvm (store kvm cmd.key cmd.value))
by_code append cmd kvm =
    some (if_held cmd kvm (store kvm cmd.key (or_empty (kvm cmd.key) ++ cmd.value)))
by_code acquire cmd kvm = try_acquire cmd kvm
by_code release cmd kvm = some (if_held cmd kvm (store kvm (lock_key cmd.key) []))
by_code renew cmd kvm = some (if_held cmd kvm (store kvm (lock_key cmd.key) (lock_value cmd)))
by_code failing_acquire cmd kvm = some (kvm, true)
by_code failing_locked cmd kvm = some (kvm, true)

unfoldable pub commit_op : RequestArgs → StringMap → Option (StringMap × Bool)
unfolding by_code
commit_op cmd kvm = by_code cmd.code cmd kvm

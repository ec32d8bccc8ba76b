-- ===== src/Kvraft/Lock/Owner.antt =====
-- kvraft/server.go: what is stored for a lock names its holder, and nobody else.
use pp.Prelude.{ℕ, ◌≤◌, ◌≡◌, refl, false, some, [], ◌∷◌, ◌++◌, arith, ◌==◌, inl}
use pp.Text.{Bytes, beq, split, split-append, Lacks}
use pp.Text.Decimal.{format, max_u64}
use pp.Text.Print.{format-IsDigits, IsDigits-Lacks}
use pp.Text.Parse.{parse-format}
use pp.Kvraft.State.{RequestArgs, StringMap}
use pp.Kvraft.Lock.{slash, lock_key, lock_value, first_part, check_hold_lock}

pub format-Lacks : (n : ℕ) → Lacks slash (format n)
format-Lacks n = IsDigits-Lacks slash (format n) (inl (omega arith)) (format-IsDigits n)

pub lock_value-ne-nil : (p v : Bytes) → beq (p ++ slash ∷ v) [] ≡ false
lock_value-ne-nil [] v = refl
lock_value-ne-nil (c ∷ p) v = refl

first_part-lock_value :
    (cmd : RequestArgs) → first_part (split slash (lock_value cmd)) ≡ format cmd.client_id
unfolding first_part
first_part-lock_value cmd =
    rw (split-append slash (format cmd.client_id) cmd.value (format-Lacks cmd.client_id))

-- Where a lock was stored for a client of 64 bits, the check passes for that client, and for no other.
pub check_hold_lock-lock_value :
    (cmd other : RequestArgs) (kvm : StringMap)
    → cmd.client_id ≤ max_u64
    → kvm (lock_key other.key) ≡ some (lock_value cmd)
    → check_hold_lock other kvm ≡ (cmd.client_id == other.client_id)
unfolding check_hold_lock
check_hold_lock-lock_value cmd other kvm h at = rw (
  at,
  lock_value-ne-nil (format cmd.client_id) cmd.value,
  first_part-lock_value cmd,
  (parse-format cmd.client_id h).0,
)

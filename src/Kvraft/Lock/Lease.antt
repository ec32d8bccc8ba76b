-- ===== src/Kvraft/Lock/Lease.antt =====
-- kvraft/server.go: when a lock that was taken can be taken again.
use pp.Prelude.{
  ℕ, ◌+◌, ◌<◌, ◌≡◌, refl, ◌∙◌, ap, Bool, true, false, some, [], ◌∷◌, get_elem?, if◌then◌else◌,
  Returns, ltb, leb, ◌==◌, arith, Bool-cases, inl, inr, ◌-◌, sym,
}
use pp.Prelude.Int.{pos}
use pp.Text.{split, split-append, split-Lacks, Lacks}
use pp.Text.Decimal.{format, atoi, signed, two63, parse_base10, value}
use pp.Text.Parse.{digits-head, parse_base10-format}
use pp.Kvraft.State.{acquire, RequestArgs, StringMap, store}
use pp.Kvraft.Lock.{
  slash, lock_key, lock_value, lease_over, exceeds, sub_int, minus, try_acquire, by_code, commit_op,
}
use pp.Kvraft.Lock.Owner.{lock_value-ne-nil, format-Lacks}
use pp.Kvraft.Lock.Effect.{takes_lock, DoneIf, commit_op-Takes}

lock_value-time :
    (cmd : RequestArgs)
    → Lacks slash cmd.value
    → get_elem? (split slash (lock_value cmd)) 1 ≡ some cmd.value
lock_value-time cmd h =
    ap (λ l. get_elem? l 1)
      (split-append slash (format cmd.client_id) cmd.value (format-Lacks cmd.client_id)
        ∙ ap (λ l. format cmd.client_id ∷ l) (split-Lacks slash cmd.value h))

if-DoneIf :
    (b : Bool) (taken kvm : StringMap) → DoneIf b kvm (if b then (taken, true) else (kvm, false))
if-DoneIf true taken kvm = (refl, λ h. cc)
if-DoneIf false taken kvm = (refl, λ h. refl)

try_acquire-stored :
    (cmd other : RequestArgs) (kvm : StringMap)
    → Lacks slash cmd.value
    → kvm (lock_key other.key) ≡ some (lock_value cmd)
    → Returns (try_acquire other kvm) (DoneIf (lease_over other.value cmd.value) kvm)
unfolding try_acquire
try_acquire-stored cmd other kvm h at =
    let b = lease_over other.value cmd.value in
    let taken = store kvm (lock_key other.key) (lock_value other) in
    let e : try_acquire other kvm ≡ some (if b then (taken, true) else (kvm, false)) =
      rw (at, lock_value-ne-nil (format cmd.client_id) cmd.value, lock_value-time cmd h) refl in
    (_, e, if-DoneIf b taken kvm)

-- A printed time is read back.
atoi-format : (n : ℕ) → 0 < n → n < two63 → atoi (format n) ≡ pos n
unfolding atoi signed format
atoi-format n some_n small =
    let (c, r, shape, big) = digits-head 20 n [] (omega arith) some_n in
    let plus : (c == b'+') ≡ false = ground arith in
    let dash : (c == b'-') ≡ false = ground arith in
    let le : leb two63 n ≡ false = ground arith in
    let parsed : parse_base10 (c ∷ r) ≡ value n =
      ap parse_base10 (sym shape) ∙ parse_base10-format n (omega arith) some_n in
    rw (shape, dash, plus, parsed, le) refl

-- Of two times the later one is past the lease when more than thirty seconds lie between them.
lease_over-format :
    (t u : ℕ)
    → 0 < t
    → t < two63
    → 0 < u
    → u < two63
    → lease_over (format u) (format t) ≡ ltb (t + 30) u
unfolding lease_over exceeds sub_int minus
lease_over-format t u t₀ t₁ u₀ u₁ =
    rw (atoi-format t t₀ t₁, atoi-format u u₀ u₁)
      (elim (Bool-cases (leb t u)) [
        | inl le ↦
            let lt : ltb (u - t) two63 ≡ true = ground arith in
            let same : ltb 30 (u - t) ≡ ltb (t + 30) u = ground arith in rw (le, lt) same
        | inr gt ↦
            let lt : ltb (t - u - 1) two63 ≡ true = ground arith in
            let never : ltb (t + 30) u ≡ false = ground (arith, gt) in rw (gt, lt, never) refl
      ])

-- Right after an `acquire` or `renew` that was done at a printed time `t`, an `acquire` of the same key, by whichever
-- client, at a printed time `u` does not panic, and is done exactly when `u` is more than thirty seconds past `t`;
-- otherwise the map is left as it is. The times are positive numbers below `2 ^ 63`.
pub commit_op-lease :
    (cmd other : RequestArgs) (kvm kvm' : StringMap) (t u : ℕ)
    → (0 < t) × (t < two63)
    → (0 < u) × (u < two63)
    → cmd.value ≡ format t
    → other.value ≡ format u
    → takes_lock cmd.code ≡ true
    → commit_op cmd kvm ≡ some (kvm', true)
    → other.key ≡ cmd.key
    → other.code ≡ acquire
    → Returns (commit_op other kvm') (DoneIf (ltb (t + 30) u) kvm')
unfolding commit_op by_code
commit_op-lease cmd other kvm kvm' t u (t₀, t₁) (u₀, u₁) at_t at_u takes e k c =
    let at : kvm' (lock_key other.key) ≡ some (lock_value cmd) =
      rw k (commit_op-Takes cmd kvm (kvm', true) takes e refl) in
    let r = try_acquire-stored cmd other kvm' (rw at_t (format-Lacks t)) at in
    let same : lease_over other.value cmd.value ≡ ltb (t + 30) u =
      rw (at_t, at_u) (lease_over-format t u t₀ t₁ u₀ u₁) in
    (r.0, ap (λ o. by_code o other kvm') c ∙ r.1, rw (← same) r.2)

-- ===== src/Bio/Mock/AsLocal.antt =====
-- bio/bio.go on the disk of bio/dsk.go: the disk in memory is a disk of one client.
use pp.Prelude.{
  ℕ, suc, ◌≤◌, ◌≡◌, ◌≢◌, refl, sym, ap, subst, ◌∙◌, Bool, true, false, ◌==◌, arith, Returns,
  Bool-cases, inl, inr,
}
use pp.Text.{Bytes, beq, beq-eq}
use pp.Text.Decimal.{format, max_u64, parse_uint}
use pp.Text.Parse.{parse-format}
use pp.Kvraft.State.{StringMap, store, store_self, store_ne, or_empty}
use pp.Bio.Disk.{Block, ok, err_no_lock, bget, bpush, brenew, brelse}
use pp.Bio.Local.{Same, update, Sets, LocalDisk}
use pp.Bio.Mock.{
  lock_of, is_lock, held_mark, free_mark, mock_put, mock_release, mock_renew, mock_disk,
}
use pp.Bio.Mock.Pushed.{bget-free}
use pp.Text.Print.{IsDigits, format-IsDigits}

-- Numbers of 64 bits are printed differently.
format-inj : (a b : ℕ) → a ≤ max_u64 → b ≤ max_u64 → format a ≡ format b → a ≡ b
format-inj a b ha hb e = sym (parse-format a ha).1 ∙ ap parse_uint e ∙ (parse-format b hb).1

lock_of-inj : (s t : Bytes) → lock_of s ≡ lock_of t → s ≡ t
lock_of-inj s t e = cc

abbrev pub content : StringMap → ℕ → Bytes
content kv n = or_empty (kv (format n))

abbrev pub locked : StringMap → ℕ → Bool
locked kv n = is_lock held_mark (format n) kv

-- A lock's key is no block's key: a number has only digits.
lock-ne-format : (s : Bytes) (m : ℕ) → lock_of s ≢ format m
lock-ne-format s m e =
    let h : IsDigits (lock_of s) = subst IsDigits (sym e) (format-IsDigits m) in omega (arith, h.1)

content-lock :
    (kv : StringMap) (n m : ℕ) (v : Bytes)
    → content (store kv (lock_of (format n)) v) m ≡ content kv m
content-lock kv n m v =
    ap or_empty (store_ne kv (lock_of (format n)) (format m) v (lock-ne-format (format n) m))

locked-data :
    (kv : StringMap) (n m : ℕ) (v : Bytes) → locked (store kv (format n) v) m ≡ locked kv m
locked-data kv n m v =
    ap (λ o. beq (or_empty o) held_mark)
      (store_ne kv (format n) (lock_of (format m)) v (λ e. lock-ne-format (format m) n (sym e)))

content-data :
    (kv : StringMap) (n m : ℕ) (v : Bytes)
    → n ≤ max_u64
    → m ≤ max_u64
    → content (store kv (format n) v) m ≡ update (content kv) n v m
content-data kv n m v hn hm = elim (Bool-cases (n == m)) [
  | inl e ↦
      let q : n ≡ m = ground (arith, e) in
      rw e
        (ap or_empty (ap (store kv (format n) v) (ap format (sym q)) ∙ store_self kv (format n) v))
  | inr e ↦
      let q : n ≢ m = ground (arith, e) in
      rw e (ap or_empty (store_ne kv (format n) (format m) v (λ f. q (format-inj n m hn hm f))))
]

locked-lock :
    (kv : StringMap) (n m : ℕ) (v : Bytes)
    → n ≤ max_u64
    → m ≤ max_u64
    → locked (store kv (lock_of (format n)) v) m ≡ update (locked kv) n (beq v held_mark) m
locked-lock kv n m v hn hm = elim (Bool-cases (n == m)) [
  | inl e ↦
      let q : n ≡ m = ground (arith, e) in
      rw e (
        ap (λ o. beq (or_empty o) held_mark)
          (ap (store kv (lock_of (format n)) v) (ap (λ k. lock_of (format k)) (sym q))
            ∙ store_self kv (lock_of (format n)) v))
  | inr e ↦
      let q : n ≢ m = ground (arith, e) in
      rw e (
        ap (λ o. beq (or_empty o) held_mark)
          (store_ne kv (lock_of (format n)) (lock_of (format m)) v
            (λ f. q (format-inj n m hn hm (lock_of-inj (format n) (format m) f)))))
]

pub mock-get :
    (fuel n : ℕ) (kv : StringMap)
    → n ≤ max_u64
    → locked kv n ≡ false
    → Returns (bget mock_disk (suc fuel) n kv) (λ r.
      (r.1 ≡ record { nr = n; data_ = content kv n })
      × Same (content kv) (content r.0)
      × Sets (locked kv) n true (locked r.0))
mock-get fuel n kv h free = (
  _,
  bget-free fuel n kv free,
  (refl, λ m le. content-lock kv n m held_mark, λ m le. locked-lock kv n m held_mark h le),
)

pub mock-push :
    (b : Block) (kv : StringMap)
    → b.nr ≤ max_u64
    → locked kv b.nr ≡ true
    → ((bpush mock_disk b kv).1 ≡ ok)
      × Sets (content kv) b.nr b.data_ (content (bpush mock_disk b kv).0)
      × Same (locked kv) (locked (bpush mock_disk b kv).0)
unfolding bpush mock_disk mock_put
mock-push b kv h l =
    rw l (refl, λ m le. content-data kv b.nr m b.data_ h le, λ m le. locked-data kv b.nr m b.data_)

pub mock-refuse :
    (b : Block) (kv : StringMap)
    → b.nr ≤ max_u64
    → locked kv b.nr ≡ false
    → ((bpush mock_disk b kv).1 ≡ err_no_lock)
      × Same (content kv) (content (bpush mock_disk b kv).0)
      × Same (locked kv) (locked (bpush mock_disk b kv).0)
unfolding bpush mock_disk mock_put
mock-refuse b kv h l = rw l (refl, λ m le. refl, λ m le. refl)

-- A release that is refused found the lock free already.
free-unlocked :
    (kv : StringMap) (n : ℕ) → is_lock free_mark (format n) kv ≡ true → locked kv n ≡ false
free-unlocked kv n h = rw (beq-eq (or_empty (kv (lock_of (format n)))) free_mark h) refl

pub mock-relse :
    (b : Block) (kv : StringMap)
    → b.nr ≤ max_u64
    → Same (content kv) (content (brelse mock_disk b kv).0)
      × Sets (locked kv) b.nr false (locked (brelse mock_disk b kv).0)
unfolding brelse mock_disk mock_release
mock-relse b kv h = elim (Bool-cases (is_lock free_mark (format b.nr) kv)) [
  | inl e ↦ rw e (λ m le. refl, λ m le. already b.nr m e)
  | inr e ↦
      rw e (λ m le. content-lock kv b.nr m free_mark, λ m le. locked-lock kv b.nr m free_mark h le)
]
  where
    already :
        (n m : ℕ)
        → is_lock free_mark (format n) kv ≡ true
        → locked kv m ≡ update (locked kv) n false m
    already n m e = elim (Bool-cases (n == m)) [
      | inl f ↦
          let q : n ≡ m = ground (arith, f) in
          rw f (subst (λ k. locked kv k ≡ false) q (free-unlocked kv n e))
      | inr f ↦ rw f refl
    ]

pub mock-renew :
    (b : Block) (kv : StringMap)
    → b.nr ≤ max_u64
    → locked kv b.nr ≡ true
    → ((brenew mock_disk b kv).1 ≡ ok)
      × Same (content kv) (content (brenew mock_disk b kv).0)
      × Same (locked kv) (locked (brenew mock_disk b kv).0)
unfolding brenew mock_disk mock_renew
mock-renew b kv h l =
    let not_free : is_lock free_mark (format b.nr) kv ≡ false =
      held-renewable (or_empty (kv (lock_of (format b.nr)))) l in
    rw not_free (refl, λ m le. refl, λ m le. refl)
  where
    held-renewable : (t : Bytes) → beq t held_mark ≡ true → beq t free_mark ≡ false
    held-renewable t e = rw (beq-eq t held_mark e) refl

-- The disk in memory keeps the rules of a disk of one client.
abbrev pub mock_local : LocalDisk mock_disk
mock_local = record {
  content = content;
  held = locked;
  get = mock-get;
  push = mock-push;
  refuse = mock-refuse;
  relse = mock-relse;
  renew = mock-renew;
}

-- ===== src/Bio/Mock/Pushed.antt =====
-- bio/bio.go on the disk of bio/dsk.go: what is pushed is read back.
use pp.Prelude.{ℕ, suc, ◌≡◌, ◌≢◌, refl, ◌∙◌, ap, false, Option, some, length, arith, ◌>>=◌, Returns}
use mathlib.Core.Path.{sym}
use pp.Text.{Bytes}
use pp.Text.Decimal.{format}
use pp.Kvraft.State.{StringMap, store, store_self, store_ne, or_empty}
use pp.Bio.Disk.{ok, bget, bpush, brelse, got}
use pp.Bio.Mock.{
  lock_of, is_lock, held_mark, free_mark, mock_get, mock_put, mock_acquire, mock_release, mock_disk,
}

lock_of-ne : (key : Bytes) → lock_of key ≢ key
lock_of-ne key e = let q = ap length e in omega (arith, q)

ne-lock_of : (key : Bytes) → key ≢ lock_of key
ne-lock_of key e = lock_of-ne key (sym e)

-- The maps after a block was taken, pushed and released.
abbrev pub held : ℕ → StringMap → StringMap
held nr kv = store kv (lock_of (format nr)) held_mark

abbrev pub pushed : ℕ → Bytes → StringMap → StringMap
pushed nr d kv = store (held nr kv) (format nr) d

abbrev pub released : ℕ → Bytes → StringMap → StringMap
released nr d kv = store (pushed nr d kv) (lock_of (format nr)) free_mark

-- With a free lock, one round gets the block, with the data that is there or none.
pub bget-free :
    (fuel nr : ℕ) (kv : StringMap)
    → is_lock held_mark (format nr) kv ≡ false
    → bget mock_disk (suc fuel) nr kv
      ≡ some (held nr kv, record { nr = nr; data_ = or_empty (kv (format nr)) })
unfolding bget got mock_disk mock_get mock_acquire
bget-free fuel nr kv h = rw (
  h,
  store_self kv (lock_of (format nr)) held_mark,
  store_ne kv (lock_of (format nr)) (format nr) held_mark (lock_of-ne (format nr)),
)

pub bpush-held :
    (nr : ℕ) (d : Bytes) (kv : StringMap)
    → bpush mock_disk (record { nr = nr; data_ = d }) (held nr kv) ≡ (pushed nr d kv, ok)
unfolding bpush mock_disk mock_put
bpush-held nr d kv = rw (store_self kv (lock_of (format nr)) held_mark)

pushed-lock :
    (nr : ℕ) (d : Bytes) (kv : StringMap) → pushed nr d kv (lock_of (format nr)) ≡ some held_mark
pushed-lock nr d kv =
    store_ne (held nr kv) (format nr) (lock_of (format nr)) d (ne-lock_of (format nr))
    ∙ store_self kv (lock_of (format nr)) held_mark

pub brelse-pushed :
    (nr : ℕ) (d e : Bytes) (kv : StringMap)
    → brelse mock_disk (record { nr = nr; data_ = e }) (pushed nr d kv) ≡ (released nr d kv, ok)
unfolding brelse mock_disk mock_release
brelse-pushed nr d e kv = rw (pushed-lock nr d kv)

released-data : (nr : ℕ) (d : Bytes) (kv : StringMap) → released nr d kv (format nr) ≡ some d
released-data nr d kv =
    store_ne (pushed nr d kv) (lock_of (format nr)) (format nr) free_mark (lock_of-ne (format nr))
    ∙ store_self (held nr kv) (format nr) d

-- Take a block, push data into it and release it.
abbrev pub put_block : ℕ → Bytes → StringMap → Option StringMap
put_block nr d kv = do
  (kv₁, b) ← bget mock_disk 1 nr kv
  let (kv₂, e₂) = bpush mock_disk (record b { data_ = d }) kv₁
  let (kv₃, e₃) = brelse mock_disk b kv₂
  some kv₃

put_block-released :
    (nr : ℕ) (d : Bytes) (kv : StringMap)
    → is_lock held_mark (format nr) kv ≡ false
    → put_block nr d kv ≡ some (released nr d kv)
put_block-released nr d kv h =
    rw (bget-free 0 nr kv h, bpush-held nr d kv, brelse-pushed nr d (or_empty (kv (format nr))) kv)

-- What a pushed block leaves: its number can be taken again at once and gives the data, and no other key has changed
-- but the block's and its lock's.
abbrev pub IsPushed : ℕ → Bytes → StringMap → StringMap → Type 0
IsPushed nr d kv kv' =
    ((fuel : ℕ)
      → bget mock_disk (suc fuel) nr kv' ≡ some (held nr kv', record { nr = nr; data_ = d }))
    × ((j : Bytes) → format nr ≢ j → lock_of (format nr) ≢ j → kv' j ≡ kv j)

pub released-bget :
    (fuel nr : ℕ) (d : Bytes) (kv : StringMap)
    → bget mock_disk (suc fuel) nr (released nr d kv)
      ≡ some (held nr (released nr d kv), record { nr = nr; data_ = d })
released-bget fuel nr d kv =
    let free : is_lock held_mark (format nr) (released nr d kv) ≡ false =
      rw (store_self (pushed nr d kv) (lock_of (format nr)) free_mark) refl in
    bget-free fuel nr (released nr d kv) free ∙ rw (released-data nr d kv) refl

-- On the disk in memory, taking a block whose lock is not held, pushing data and releasing it does not block, and leaves the
-- data to be read back by a later get, and every other key as it was.
pub put_block-IsPushed :
    (nr : ℕ) (d : Bytes) (kv : StringMap)
    → is_lock held_mark (format nr) kv ≡ false
    → Returns (put_block nr d kv) (IsPushed nr d kv)
put_block-IsPushed nr d kv h =
    let kv' = released nr d kv in
    let others : (j : Bytes) → format nr ≢ j → lock_of (format nr) ≢ j → kv' j ≡ kv j = λ j n m.
      store_ne (pushed nr d kv) (lock_of (format nr)) j free_mark m
      ∙ store_ne (held nr kv) (format nr) j d n
      ∙ store_ne kv (lock_of (format nr)) j held_mark m in
    (kv', put_block-released nr d kv h, (λ fuel. released-bget fuel nr d kv, others))

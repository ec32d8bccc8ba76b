-- ===== src/Bio/Mock.antt =====
-- bio/dsk.go: the disk that the tests use, a map in memory.
pub mod Pushed
pub mod AsLocal
use pp.Prelude.{Bool, true, false, not, Option, none, some, List, [], ◌∷◌, ◌++◌, if◌then◌else◌}
use pp.Text.{Bytes, codes, beq}
use pp.Kvraft.State.{StringMap, store, or_empty}
use pp.Bio.Disk.{Disk}

abbrev pub lock_of : Bytes → Bytes
lock_of key = codes "lock_" ++ key

abbrev pub is_lock : Bytes → Bytes → StringMap → Bool
is_lock mark key kv = beq (or_empty (kv (lock_of key))) mark

abbrev pub held_mark : Bytes
held_mark = b'1' ∷ []

abbrev pub free_mark : Bytes
free_mark = b'0' ∷ []

unfoldable pub mock_get : Bytes → StringMap → StringMap × Option Bytes
mock_get key kv = (kv, if is_lock held_mark key kv then some (or_empty (kv key)) else none)

unfoldable pub mock_put : Bytes → Bytes → StringMap → StringMap × Bool
mock_put key value kv = if is_lock held_mark key kv then (store kv key value, true) else (kv, false)

-- With one thread, a lock that is held stays held: the loop does not end.
unfoldable pub mock_acquire : Bytes → StringMap → Option StringMap
mock_acquire key kv =
    if is_lock held_mark key kv then none else some (store kv (lock_of key) held_mark)

unfoldable pub mock_release : Bytes → StringMap → StringMap × Bool
mock_release key kv =
    if is_lock free_mark key kv then (kv, false) else (store kv (lock_of key) free_mark, true)

unfoldable pub mock_renew : Bytes → StringMap → StringMap × Bool
mock_renew key kv = (kv, not (is_lock free_mark key kv))

unfoldable pub mock_disk : Disk StringMap
mock_disk = record {
  get = mock_get;
  put = mock_put;
  acquire = mock_acquire;
  release = mock_release;
  renew = mock_renew;
}

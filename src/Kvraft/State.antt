-- ===== src/Kvraft/State.antt =====
-- kvraft/common.go, kvraft/server.go, kvraft/snapshot.go: the types, and the maps of a server.
use pp.Prelude.{ℕ, ◌≡◌, ◌≢◌, Bool, true, false, Option, none, some, ◌==◌, if◌then◌else◌}
use mathlib.Core.List.{[]}
use pp.Text.{Bytes, beq, beq_refl, beq-ne}

pub data OpCode : Type 0 where
  get put append acquire release renew failing_acquire failing_locked : OpCode

pub data Err : Type 0 where
  ok no_key wrong_leader lock_held lock_not_held timeout : Err

pub record RequestArgs : Type 0 where
  pub client_id : ℕ
  pub seq : ℕ
  pub code : OpCode
  pub key : Bytes
  pub value : Bytes

pub record RequestReply : Type 0 where
  pub seq : ℕ
  pub e : Err
  pub value : Bytes

-- `map[string]string` as a function; a key that is not there has no value.
abbrev pub StringMap : Type 0
StringMap = Bytes → Option Bytes

-- `map[uint]bool`: the program only ever asks whether a key is there.
abbrev pub NumberSet : Type 0
NumberSet = ℕ → Bool

abbrev pub NumberMap : Type 0
NumberMap = ℕ → Option ℕ

abbrev pub store : StringMap → Bytes → Bytes → StringMap
store m k v j = if beq k j then some v else m j

-- A key that is not there reads as the empty string.
abbrev pub or_empty : Option Bytes → Bytes
or_empty none = []
or_empty (some v) = v

abbrev pub with_number : NumberSet → ℕ → NumberSet
with_number s n j = if n == j then true else s j

abbrev pub without : NumberSet → ℕ → NumberSet
without s n j = if n == j then false else s j

abbrev pub set_last : NumberMap → ℕ → ℕ → NumberMap
set_last m k v j = if k == j then some v else m j

-- What the service keeps besides its Raft server; `Snapshot` is the part that a snapshot holds.
pub record Snapshot : Type 0 where
  pub kvm : StringMap
  pub unwritten : NumberSet
  pub unseen : NumberSet
  pub last : NumberMap

pub record KvServer : Type 0 where
  pub maps : Snapshot
  pub open maps use *
  pub topidx : ℕ

abbrev pub empty_maps : Snapshot
empty_maps = record {
  kvm = λ _. none;
  unwritten = λ _. false;
  unseen = λ _. false;
  last = λ _. none;
}

pub store_self : (m : StringMap) (k v : Bytes) → store m k v k ≡ some v
store_self m k v = rw beq_refl

pub store_ne : (m : StringMap) (k j v : Bytes) → k ≢ j → store m k v j ≡ m j
store_ne m k j v n = rw (beq-ne k j n)

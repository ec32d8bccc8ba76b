-- ===== src/Bio/Disk.antt =====
-- bio/bio.go, and the interface of bio/dsk.go that it uses.
use pp.Prelude.{ℕ, zero, suc, Bool, true, false, Option, none, some, ◌>>=◌}
use pp.Text.{Bytes}
use pp.Text.Decimal.{format}

pub record Block : Type 0 where
  pub nr : ℕ
  pub data_ : Bytes

pub data BioError : Type 0 where
  ok err_no_lock : BioError

-- `get` fails with `none`, the others with `false`; an `acquire` that waits for ever is `none`.
pub record Disk (S : Type 0) : Type 0 where
  pub get : Bytes → S → S × Option Bytes
  pub put : Bytes → Bytes → S → S × Bool
  pub acquire : Bytes → S → Option S
  pub release : Bytes → S → S × Bool
  pub renew : Bytes → S → S × Bool

abbrev pub to_error : Bool → BioError
to_error true = ok
to_error false = err_no_lock

module _ {S : Type 0} (dsk : Disk S) where
  unfoldable pub got : ℕ → (S → Option (S × Block)) → S × Option Bytes → Option (S × Block)
  got nr retry (s, none) = retry s
  got nr retry (s, some d) = some (s, record { nr = nr; data_ = d })

  -- Each round takes the lock and reads; a lock that was lost in between starts another round. `none`
  -- stands for a lock that never comes free, or for more rounds than the fuel.
  unfoldable pub bget : ℕ → ℕ → S → Option (S × Block)
  unfolding got
  bget zero nr s = none
  bget (suc fuel) nr s = do
    s' ← dsk.acquire (format nr) s
    got nr (bget fuel nr) (dsk.get (format nr) s')

  unfoldable pub bpush : Block → S → S × BioError
  bpush b s = let r = dsk.put (format b.nr) b.data_ s in (r.0, to_error r.1)

  unfoldable pub brenew : Block → S → S × BioError
  brenew b s = let r = dsk.renew (format b.nr) s in (r.0, to_error r.1)

  unfoldable pub brelse : Block → S → S × BioError
  brelse b s = let r = dsk.release (format b.nr) s in (r.0, to_error r.1)

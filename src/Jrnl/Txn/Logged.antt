-- ===== src/Jrnl/Txn/Logged.antt =====
-- jrnl/txn.go on the disk in memory: what `WriteBlock` logs, the journal reads back.
use pp.Prelude.{
  ℕ, ◌+◌, ◌≤◌, ◌<◌, ◌≡◌, refl, ◌∙◌, ap, sym, subst, Bool, true, false, some, List, [], ◌∷◌, leb,
  Returns, arith,
}
use pp.Text.{Bytes, Lacks, split}
use pp.Text.Decimal.{format, max_u64}
use pp.Kvraft.State.{StringMap, or_empty}
use pp.Bio.Disk.{Block, ok, bget, bpush, brelse}
use pp.Bio.Mock.{is_lock, held_mark, mock_disk}
use pp.Bio.Mock.Pushed.{held, pushed, released, bget-free, bpush-held, brelse-pushed, released-bget}
use pp.Jrnl.Blocks.{slash, blk_per_sys, get_log_segment_start, lb_of, parse_lb, flatten_lb}
use pp.Jrnl.RoundTrip.{parse_lb-flatten_lb}
use pp.Jrnl.Txn.{TxnHandle, logged, pushed_or, write_log, write_block}

abbrev pub IsLogged : TxnHandle → Block → StringMap × TxnHandle × Bool → Type 0
IsLogged t blk (kv', t', done) =
    let lbn = get_log_segment_start t.blk_seg + t.offset in
    (t' ≡ record t { offset = t.offset + 1 })
    × (done ≡ true)
    × Returns (bget mock_disk 1 lbn kv')
        (λ r. parse_lb r.1 ≡ record { lnr = lbn; rnr = blk.nr; rdata = blk.data_; last = false })

push-at :
    (n : ℕ) (c : Block) (kv : StringMap)
    → c.nr ≡ n
    → bpush mock_disk c (held n kv) ≡ (pushed n c.data_ kv, ok)
push-at n c kv q =
    subst (λ n. bpush mock_disk c (held n kv) ≡ (pushed n c.data_ kv, ok)) q
      (bpush-held c.nr c.data_ kv)

relse-at :
    (n : ℕ) (c : Block) (kv : StringMap)
    → c.nr ≡ n
    → brelse mock_disk c (pushed n c.data_ kv) ≡ (released n c.data_ kv, ok)
relse-at n c kv q =
    subst (λ n. brelse mock_disk c (pushed n c.data_ kv) ≡ (released n c.data_ kv, ok)) q
      (brelse-pushed c.nr c.data_ c.data_ kv)

lb_of-lnr : (nr : ℕ) (l : List Bytes) → (lb_of nr l).lnr ≡ nr
unfolding lb_of
lb_of-lnr nr [] = refl
lb_of-lnr nr (a ∷ []) = refl
lb_of-lnr nr (a ∷ b ∷ []) = refl
lb_of-lnr nr (a ∷ b ∷ c ∷ l) = refl

pub parse_lb-lnr : (b : Block) → (parse_lb b).lnr ≡ b.nr
unfolding parse_lb
parse_lb-lnr b = lb_of-lnr b.nr (split slash b.data_)

-- The block that is pushed for block `n` of the log.
new_block : ℕ → Block → StringMap → Block
new_block n blk kv =
    flatten_lb (logged blk (parse_lb (record { nr = n; data_ = or_empty (kv (format n)) })))

new_block-nr : (n : ℕ) (blk : Block) (kv : StringMap) → (new_block n blk kv).nr ≡ n
unfolding new_block flatten_lb
new_block-nr n blk kv = parse_lb-lnr (record { nr = n; data_ = or_empty (kv (format n)) })

write_log-mock :
    (n : ℕ) (blk : Block) (kv : StringMap)
    → is_lock held_mark (format n) kv ≡ false
    → write_log mock_disk 1 n blk kv ≡ some (released n (new_block n blk kv).data_ kv, tt)
unfolding write_log pushed_or new_block
write_log-mock n blk kv free =
    let c = new_block n blk kv in
    let q = new_block-nr n blk kv in rw (bget-free 0 n kv free, push-at n c kv q, relse-at n c kv q)

new_block-parsed :
    (n : ℕ) (blk : Block) (kv : StringMap)
    → Lacks slash blk.data_
    → blk.nr ≤ max_u64
    → parse_lb (record { nr = n; data_ = (new_block n blk kv).data_ })
      ≡ record { lnr = n; rnr = blk.nr; rdata = blk.data_; last = false }
unfolding new_block
new_block-parsed n blk kv h le =
    let old = parse_lb (record { nr = n; data_ = or_empty (kv (format n)) }) in
    ap (λ m. parse_lb (record { nr = m; data_ = (new_block n blk kv).data_ }))
      (sym (new_block-nr n blk kv))
    ∙ parse_lb-flatten_lb (logged blk old) h le
    ∙ ap (λ m. record { lnr = m; rnr = blk.nr; rdata = blk.data_; last = false })
        (parse_lb-lnr (record { nr = n; data_ = or_empty (kv (format n)) }))

-- On the disk in memory, a transaction with room that writes a block without a slash in its data, the lock of the next
-- log block not being held, does not block or fail: its offset moves by one, and the log block can be taken and
-- is read as that block, not marked as the last.
pub write_block-IsLogged :
    (t : TxnHandle) (blk : Block) (kv : StringMap)
    → t.offset < blk_per_sys
    → Lacks slash blk.data_
    → blk.nr ≤ max_u64
    → is_lock held_mark (format (get_log_segment_start t.blk_seg + t.offset)) kv ≡ false
    → Returns (write_block mock_disk 1 t blk kv) (IsLogged t blk)
unfolding write_block
write_block-IsLogged t blk kv room h le free =
    let n = get_log_segment_start t.blk_seg + t.offset in
    let d = (new_block n blk kv).data_ in
    let r : leb blk_per_sys t.offset ≡ false = ground arith in
    let w : write_block mock_disk 1 t blk kv
        ≡ some (released n d kv, record t { offset = t.offset + 1 }, true) =
      rw (r, write_log-mock n blk kv free) refl in
    (_, w, (refl, refl, (_, released-bget 0 n d kv, new_block-parsed n blk kv h le)))

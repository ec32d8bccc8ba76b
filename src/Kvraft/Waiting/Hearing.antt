-- ===== src/Kvraft/Waiting/Hearing.antt =====
-- kvraft/server.go: what a message means for a request that waits, and the answers of `Request`.
use pp.Prelude.{
  ℕ, true, false, none, some, ap, [], ◌≡◌, ◌≢◌, ◌∙◌, refl, sym, ◌==◌, arith, Bool-cases, inl, inr,
  ==_iff,
}
use pp.Prelude.Int.{ℤ, pos, negsuc}
use pp.Text.{Bytes}
use pp.Kvraft.State.{
  OpCode, get, put, append, acquire, release, renew, failing_acquire, failing_locked, ok, no_key,
  wrong_leader, lock_held, lock_not_held, RequestArgs, RequestReply, StringMap,
}
use pp.Kvraft.Reply.{wait, rerequest, answer, hear, reply_to, asked_reply, value_reply}
use pp.Kvraft.Waiting.{hear_at}

-- The command was done, and not marked as one that cannot be.
abbrev pub WasDone : OpCode → Type 0
WasDone code = (code ≢ failing_acquire) × (code ≢ failing_locked)

-- The answer to a request whose command stands in the log with the code `code`: that the lock is held, or not held, where the
-- command was marked so; the value of the key, or that there is none, for a get; and success for all others.
pub record AnswersTo (args : RequestArgs) (code : OpCode) (kvm : StringMap) (reply : RequestReply)
    : Type 0 where
  pub held : code ≡ failing_acquire → reply ≡ record { seq = args.seq; e = lock_held; value = [] }
  pub not_held :
      code ≡ failing_locked → reply ≡ record { seq = args.seq; e = lock_not_held; value = [] }
  pub found :
      (v : Bytes)
      → WasDone code
      → args.code ≡ get
      → kvm args.key ≡ some v
      → reply ≡ record { seq = args.seq; e = ok; value = v }
  pub missing :
      WasDone code
      → args.code ≡ get
      → kvm args.key ≡ none
      → reply ≡ record { seq = args.seq; e = no_key; value = [] }
  pub other : WasDone code → args.code ≢ get → reply ≡ record { seq = args.seq; e = ok; value = [] }

module _ (args : RequestArgs) (kvm : StringMap) where
  reply_to-done :
      (code asked : OpCode)
      → WasDone code
      → reply_to code asked args kvm ≡ asked_reply asked args kvm
  unfolding reply_to
  reply_to-done get asked h = refl
  reply_to-done put asked h = refl
  reply_to-done append asked h = refl
  reply_to-done acquire asked h = refl
  reply_to-done release asked h = refl
  reply_to-done renew asked h = refl
  reply_to-done failing_acquire asked h = absurd (h.0 refl)
  reply_to-done failing_locked asked h = absurd (h.1 refl)

  asked_reply-other :
      (asked : OpCode)
      → asked ≢ get
      → asked_reply asked args kvm ≡ record { seq = args.seq; e = ok; value = [] }
  unfolding asked_reply
  asked_reply-other get h = absurd (h refl)
  asked_reply-other put h = refl
  asked_reply-other append h = refl
  asked_reply-other acquire h = refl
  asked_reply-other release h = refl
  asked_reply-other renew h = refl
  asked_reply-other failing_acquire h = refl
  asked_reply-other failing_locked h = refl

  pub reply_to-AnswersTo :
      (code : OpCode) → AnswersTo args code kvm (reply_to code args.code args kvm)
  unfolding reply_to asked_reply value_reply
  reply_to-AnswersTo code = record {
    held = λ q. rw q refl;
    not_held = λ q. rw q refl;
    found = λ v h q there. reply_to-done code args.code h ∙ rw (q, there) refl;
    missing = λ h q there. reply_to-done code args.code h ∙ rw (q, there) refl;
    other = λ h q. reply_to-done code args.code h ∙ asked_reply-other args.code q;
  }

module _ (args cmd : RequestArgs) (index : ℕ) (kvm : StringMap) where
  -- A message for another index means nothing to a server that leads.
  pub hear_at-other : (idx : ℤ) → idx ≢ pos index → hear_at true idx args index cmd kvm ≡ wait
  unfolding hear_at hear
  hear_at-other (negsuc n) h = refl
  hear_at-other (pos idx) h = elim (Bool-cases (index == idx)) [
    | inl same ↦ absurd (h (ap pos (sym ((==_iff _ _).0 same))))
    | inr other ↦ rw other refl
  ]

  pub hear_at-deposed :
      (idx : ℤ)
      → hear_at false idx args index cmd kvm
        ≡ answer (record { seq = args.seq; e = wrong_leader; value = [] })
  unfolding hear_at hear
  hear_at-deposed (negsuc n) = refl
  hear_at-deposed (pos idx) = refl

  pub hear_at-own :
      cmd.seq ≡ args.seq
      → hear_at true (pos index) args index cmd kvm ≡ answer (reply_to cmd.code args.code args kvm)
  unfolding hear_at hear
  hear_at-own q =
      let here : (index == index) ≡ true = ground arith in
      let own : (cmd.seq == args.seq) ≡ true = ground (arith, q) in rw (here, own) refl

  pub hear_at-lost : cmd.seq ≢ args.seq → hear_at true (pos index) args index cmd kvm ≡ rerequest
  unfolding hear_at hear
  hear_at-lost q =
      let here : (index == index) ≡ true = ground arith in
      let lost : (cmd.seq == args.seq) ≡ false = ground (arith, q) in rw (here, lost) refl

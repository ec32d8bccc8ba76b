-- ===== src/Kvraft/Waiting/Answered.antt =====
-- kvraft/server.go: the subscription of a request ends with its answer.
use pp.Prelude.{
  ℕ, ◌<◌, ◌≡◌, ◌≢◌, refl, ap, true, false, none, [], some, List, ◌∷◌, length, get_elem?, Returns,
}
use pp.Text.Decimal.{two64}
use pp.Prelude.Int.{pos}
use pp.Kvraft.State.{wrong_leader, RequestArgs, RequestReply, StringMap}
use pp.Kvraft.Reply.{reply_to}
use pp.Kvraft.Broadcast.{Bcast, lookup}
use pp.Kvraft.Broadcast.Subscribers.{IsValid, Subscribed, sub-Subscribed}
use pp.Kvraft.Waiting.{Served, Doing, replies, waits, request_again, after_hearing, hear_message}
use pp.Kvraft.Waiting.Hearing.{
  AnswersTo, reply_to-AnswersTo, hear_at-other, hear_at-deposed, hear_at-own, hear_at-lost,
}
use pp.Raft.State.{Raft}
use pp.Raft.Start.{Started, start, get_state}

-- There is a random number that no subscription has, and room to count one more.
pub record HasNumber (ids : List ℕ) (b : Bcast ℕ) : Type 0 where
  pub valid : IsValid b
  pub small : length b.net < two64
  pub at : ℕ
  pub number : ℕ
  pub there : get_elem? ids at ≡ some number
  pub new : lookup number b.net ≡ none

module _ (ids : List ℕ) (msgc : ℕ) (args : RequestArgs) where
  -- The request waits, with one subscription more.
  pub record Waits (w : Served) (rf : Raft RequestArgs) (st : Started) (r : Served × Doing)
      : Type 0 where
    pub id : ℕ
    pub waiting : r.1 ≡ waits st.index id
    pub state : r.0 ≡ record w { rf = rf; b = r.0.b }
    pub subscribed : Subscribed msgc w.b (r.0.b, id)

  pub request_again-Waits :
      (w : Served) (rf : Raft RequestArgs) (st : Started)
      → HasNumber ids w.b
      → start args w.rf ≡ some (rf, st)
      → st.is_leader ≡ true
      → Returns (request_again ids msgc args w) (Waits w rf st)
  unfolding request_again
  request_again-Waits w rf st h e leads =
      let (r, f, s) = sub-Subscribed w.b ids h.at h.number msgc h.valid h.small h.there h.new in
      (
        (record w { rf = rf; b = r.0 }, waits st.index r.1),
        rw (e, leads, f) refl,
        record { id = r.1; waiting = refl; state = refl; subscribed = s },
      )

  -- What a message does to the request that waits with number `id`; the consensus module is `rf` by then.
  pub record Hears (w w₁ : Served) (st : Started) (id : ℕ) (rf : Raft RequestArgs) (index : ℕ)
      (cmd : RequestArgs) (kvm : StringMap) : Type 0 where
    pub waits_on :
        (get_state rf).1 ≡ true
        → st.index ≢ pos index
        → hear_message ids msgc args st.index id index cmd kvm (record w₁ { rf = rf })
          ≡ some (record w₁ { rf = rf }, waits st.index id)
    pub deposed :
        (get_state rf).1 ≡ false
        → hear_message ids msgc args st.index id index cmd kvm (record w₁ { rf = rf })
          ≡ some (
            record w { rf = rf; shut = msgc ∷ w.shut },
            replies (record { seq = args.seq; e = wrong_leader; value = [] }),
          )
    pub answered :
        (get_state rf).1 ≡ true
        → st.index ≡ pos index
        → cmd.seq ≡ args.seq
        → (reply : RequestReply) × (hear_message ids msgc args st.index id index cmd kvm
              (record w₁ { rf = rf })
            ≡ some (record w { rf = rf; shut = msgc ∷ w.shut }, replies reply))
          × AnswersTo args cmd.code kvm reply
    -- It starts again with the channel that it has closed.
    pub again :
        (rf' : Raft RequestArgs) (st' : Started)
        → (get_state rf).1 ≡ true
        → st.index ≡ pos index
        → cmd.seq ≢ args.seq
        → start args rf ≡ some (rf', st')
        → st'.is_leader ≡ true
        → Returns
            (hear_message ids msgc args st.index id index cmd kvm (record w₁ { rf = rf }))
            (Waits (record w { rf = rf; shut = msgc ∷ w.shut }) rf' st')

  Waits-Hears :
      (w w₁ : Served) (st : Started) (id : ℕ) (rf : Raft RequestArgs) (index : ℕ)
      (cmd : RequestArgs) (kvm : StringMap)
      → HasNumber ids w.b
      → Subscribed msgc w.b (w₁.b, id)
      → w₁.shut ≡ w.shut
      → Hears w w₁ st id rf index cmd kvm
  unfolding hear_message after_hearing
  Waits-Hears w w₁ st id rf index cmd kvm h s shut = record {
    waits_on = λ leading other. rw (leading, hear_at-other args cmd index kvm st.index other) refl;
    deposed = λ lost. rw (lost, hear_at-deposed args cmd index kvm st.index, s.back, shut) refl;
    answered = λ leading same own. (
      reply_to cmd.code args.code args kvm,
      rw (leading, same, hear_at-own args cmd index kvm own, s.back, shut) refl,
      reply_to-AnswersTo args kvm cmd.code,
    );
    again = λ rf' st' leading same lost e leads.
        let w₂ : Served = record w { rf = rf; shut = msgc ∷ w.shut } in
        let (r, f, q) = request_again-Waits w₂ rf' st' h e leads in
        (r, rw (leading, same, hear_at-lost args cmd index kvm lost, s.back, shut) f, q);
  }

  -- The request waits, and hears the messages.
  abbrev pub Serves : Served → Raft RequestArgs → Started → Served × Doing → Type 0
  Serves w rf st r =
      (q : Waits w rf st r) × ((rf₂ : Raft RequestArgs) (index : ℕ) (cmd : RequestArgs)
          (kvm : StringMap)
        → Hears w r.0 st q.id rf₂ index cmd kvm)

  -- On a leader that takes the command, with valid subscriptions, fewer than `2 ^ 64`, and a random number that is not
  -- taken, `Request` waits with one subscription on its channel. While the server leads, a message for another index than the
  -- one that `Start` gave changes nothing. A message on a server that does not lead is answered with the error of a wrong
  -- leader, and a message for the index with the request's number on one that leads with what the command came to: that the lock is
  -- held, or not held, for a marked command, the value or its absence for a get, and else success. Either answer
  -- ends the subscription, so that the table is as before, and closes the channel. Where a command of another number
  -- stands at the index, and the server still leads and takes the command again, the request subscribes again, on the channel that it has closed.
  pub request_again-Hears :
      (w : Served) (rf : Raft RequestArgs) (st : Started)
      → HasNumber ids w.b
      → start args w.rf ≡ some (rf, st)
      → st.is_leader ≡ true
      → Returns (request_again ids msgc args w) (Serves w rf st)
  request_again-Hears w rf st h e leads =
      let (r, f, q) = request_again-Waits w rf st h e leads in
      (
        r,
        f,
        (
          q,
          λ rf₂ index cmd kvm.
              Waits-Hears w r.0 st q.id rf₂ index cmd kvm h q.subscribed (ap (λ x. x.shut) q.state),
        ),
      )

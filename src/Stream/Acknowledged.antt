-- ===== src/Stream/Acknowledged.antt =====
-- What an acknowledgement means: whatever the loop goes on to do, the store keeps the record.
use ghost_trace.Prelude.{
  ℕ, ◌≡◌, refl, sym, subst, Bool, true, false, List, [], ◌∷◌, ◌++◌, Option, some, inl, inr, length,
  arith, All, All-map, All-append, Bool-cases, Option-cases, if◌then◌else◌,
}
use ghost_trace.Canonical.{Bytes}
use ghost_trace.Consumer.{ArchiveRecord, Item}
use ghost_trace.Stream.Consume.{
  Incoming, Delivery, delivery_of, ack, nak_with_delay, nak_backoff, term, Reply, reply_all,
  Context, alive, cancelled, expired, Fetched, fetch_error, messages, Poll, Ended, running,
  returned_nil, context_error, fetch_failed, fetch_batch_failed, BatchHandler, Taken, Run, item_of,
  report_undecodable, receive, commit, settle, take_messages, one_turn_on, one_turn, go_on, consume,
}
use ghost_trace.Stream.Received.{
  List-cases, after_report, receive_undecodable, receive_decodable, settle_lem,
}

module _ {E S : Type 0} (unmarshal : Bytes → Option ArchiveRecord) (h : BatchHandler E S)
    (Durable : S → Item → Type 0) where
  -- What the loop needs of a handler: it loses nothing, and a batch that it reports as committed
  -- is durable.
  pub record Lawful : Type 0 where
    pub handle_keeps :
        (meets : E) (batch : List Item) (s : S) (it : Item)
        → Durable s it
        → Durable (h.handle meets batch s).0 it
    pub undecodable_keeps :
        (meets : E) (left : ℕ) (d : Delivery) (s : S) (it : Item)
        → Durable s it
        → Durable (report_undecodable unmarshal h meets left d s) it
    pub commits :
        (meets : E) (batch : List Item) (s : S)
        → (h.handle meets batch s).1 ≡ true
        → All (Durable (h.handle meets batch s).0) batch

  -- The record that a message decodes to is durable.
  abbrev pub IsStored : S → Incoming → Type 0
  IsStored s m =
      (rec : ArchiveRecord)
      → unmarshal m.data_bytes ≡ some rec
      → Durable s (item_of rec (delivery_of m.metadata))

  abbrev pub AcksStored : S → List Reply → Type 0
  AcksStored s replies = All (λ r. r.answer ≡ ack → IsStored s r.to_message) replies

  IsStored-decoded :
      (t : S) (m : Incoming) (rec : ArchiveRecord)
      → unmarshal m.data_bytes ≡ some rec
      → Durable t (item_of rec (delivery_of m.metadata))
      → IsStored t m
  IsStored-decoded t m rec good d q other =
      subst (λ r. Durable t (item_of r (delivery_of m.metadata))) (ground arith) d

  receive-keeps :
      Lawful
      → (meets : E) (ms : List Incoming) (s : S) (it : Item) → Durable s it
      → Durable (receive unmarshal h meets ms s).state it
  unfolding receive
  receive-keeps lawful meets [] s it d = d
  receive-keeps lawful meets (m ∷ ms) s it d = elim (Option-cases (unmarshal m.data_bytes)) [
    | inl bad ↦ rw (receive_undecodable unmarshal h meets m ms s bad) (
        receive-keeps lawful meets ms (after_report unmarshal h meets m ms s) it
          (lawful.undecodable_keeps meets (length ms) (delivery_of m.metadata) s it d))
    | inr (rec, good) ↦
        rw (receive_decodable unmarshal h meets m ms s rec good)
          (receive-keeps lawful meets ms s it d)
  ]

  receive-terms :
      (meets : E) (ms : List Incoming) (s : S)
      → All (λ r. r.answer ≡ term) (receive unmarshal h meets ms s).replies
  unfolding receive
  receive-terms meets [] s = tt
  receive-terms meets (m ∷ ms) s = elim (Option-cases (unmarshal m.data_bytes)) [
    | inl bad ↦
        rw (receive_undecodable unmarshal h meets m ms s bad)
          (refl, receive-terms meets ms (after_report unmarshal h meets m ms s))
    | inr (rec, good) ↦
        rw (receive_decodable unmarshal h meets m ms s rec good) (receive-terms meets ms s)
  ]

  receive-held :
      (meets : E) (ms : List Incoming) (s t : S)
      → All (Durable t) (receive unmarshal h meets ms s).batch
      → All (IsStored t) (receive unmarshal h meets ms s).held
  unfolding receive
  receive-held meets [] s t d = tt
  receive-held meets (m ∷ ms) s t d = elim (Option-cases (unmarshal m.data_bytes)) [
    | inl bad ↦
        let e = receive_undecodable unmarshal h meets m ms s bad in
        rw e (receive-held meets ms (after_report unmarshal h meets m ms s) t (rw e at d))
    | inr (rec, good) ↦
        let e = receive_decodable unmarshal h meets m ms s rec good in
        let d' : Durable t (item_of rec (delivery_of m.metadata))
            × All (Durable t) (receive unmarshal h meets ms s).batch =
          rw e at d in
        rw e (IsStored-decoded t m rec good d'.0, receive-held meets ms s t d'.1)
  ]

  term-AcksStored :
      (s : S) (replies : List Reply) → All (λ r. r.answer ≡ term) replies → AcksStored s replies
  term-AcksStored s replies =
      All-map (λ r. r.answer ≡ term) (λ r. r.answer ≡ ack → IsStored s r.to_message) replies
        (λ r terminated acked. absurd (ground arith))

  nak-AcksStored :
      (s : S) (d : ℕ) (held : List Incoming) → AcksStored s (reply_all (nak_with_delay d) held)
  nak-AcksStored s d [] = tt
  nak-AcksStored s d (m ∷ ms) = (λ acked. absurd (ground arith), nak-AcksStored s d ms)

  ack-AcksStored :
      (s : S) (held : List Incoming) → All (IsStored s) held → AcksStored s (reply_all ack held)
  ack-AcksStored s [] stored = tt
  ack-AcksStored s (m ∷ ms) stored = (λ acked. stored.0, ack-AcksStored s ms stored.1)

  AcksStored-map :
      (s t : S) (replies : List Reply)
      → ((it : Item) → Durable s it → Durable t it)
      → AcksStored s replies
      → AcksStored t replies
  AcksStored-map s t replies keep =
      All-map (λ r. r.answer ≡ ack → IsStored s r.to_message)
        (λ r. r.answer ≡ ack → IsStored t r.to_message) replies
        (λ r stored acked rec good.
          keep (item_of rec (delivery_of r.to_message.metadata)) (stored acked rec good))

  -- What a part of the run does to the store, and the acknowledgements that it sends.
  pub record Sound (s : S) (r : Run S) : Type 0 where
    pub keeps : (it : Item) → Durable s it → Durable r.state it
    pub acks : AcksStored r.state r.replies

  commit-Sound :
      Lawful
      → (meets : E) (t : Taken S) → All (λ r. r.answer ≡ term) t.replies
      → ((u : S) → All (Durable u) t.batch → All (IsStored u) t.held)
      → Sound t.state (commit unmarshal h meets t)
  unfolding commit
  commit-Sound lawful meets t terms stored = record {
    keeps = lawful.handle_keeps meets t.batch t.state;
    acks =
        All-append (λ r. r.answer ≡ ack → IsStored after r.to_message) t.replies
          (reply_all
            (if (h.handle meets t.batch t.state).1 then ack else nak_with_delay nak_backoff) t.held)
          (term-AcksStored after t.replies terms)
          (elim (Bool-cases (h.handle meets t.batch t.state).1) [
            | inl committed ↦ rw committed (
                ack-AcksStored after t.held
                  (stored after (lawful.commits meets t.batch t.state committed)))
            | inr failed ↦ rw failed (nak-AcksStored after nak_backoff t.held)
          ]);
  }
    where
      after : S
      after = (h.handle meets t.batch t.state).0

  settle-Sound :
      Lawful
      → (meets : E) (t : Taken S) → All (λ r. r.answer ≡ term) t.replies
      → ((u : S) → All (Durable u) t.batch → All (IsStored u) t.held)
      → Sound t.state (settle unmarshal h meets t)
  unfolding settle
  settle-Sound lawful meets t terms stored = elim (List-cases t.batch) [
    | inl empty ↦
        rw empty (record { keeps = λ it d. d; acks = term-AcksStored t.state t.replies terms })
    | inr (i, rest, some_items) ↦
        subst (Sound t.state) (sym (settle_lem unmarshal h meets t i rest some_items))
          (commit-Sound lawful meets t terms stored)
  ]

  -- A turn that starts from the state before its fetch.
  receive-Sound :
      Lawful
      → (meets : E) (ms : List Incoming) (s : S) (r : Run S)
      → Sound (receive unmarshal h meets ms s).state r
      → Sound s r
  receive-Sound lawful meets ms s r sound = record {
    keeps = λ it d. sound.keeps it (receive-keeps lawful meets ms s it d);
    acks = sound.acks;
  }

  idle-Sound : (s : S) (e : Ended) → Sound s (record { state = s; replies = []; ended = e })
  idle-Sound s e = record { keeps = λ it d. d; acks = tt }

  messages-Sound :
      Lawful
      → (meets : E) (ms : List Incoming) (broken : Bool) (s : S)
      → Sound s (take_messages unmarshal h meets ms broken s)
  unfolding take_messages
  messages-Sound lawful meets ms true s = record {
    keeps = receive-keeps lawful meets ms s;
    acks = term-AcksStored _ _ (receive-terms meets ms s);
  }
  messages-Sound lawful meets ms false s = receive-Sound lawful meets ms s _ (
      settle-Sound lawful meets (receive unmarshal h meets ms s) (receive-terms meets ms s)
        (receive-held meets ms s))

  one_turn_on-Sound :
      Lawful
      → (c : Context) (f : Fetched) (meets : E) (s : S)
      → Sound s (one_turn_on unmarshal h c f meets s)
  unfolding one_turn_on
  one_turn_on-Sound lawful cancelled f meets s = idle-Sound s returned_nil
  one_turn_on-Sound lawful expired f meets s = idle-Sound s context_error
  one_turn_on-Sound lawful alive (fetch_error stopping) meets s =
      idle-Sound s (if stopping then returned_nil else fetch_failed)
  one_turn_on-Sound lawful alive (messages ms broken) meets s =
      messages-Sound lawful meets ms broken s

  one_turn-Sound : Lawful → (p : Poll E) (s : S) → Sound s (one_turn unmarshal h p s)
  unfolding one_turn
  one_turn-Sound lawful p s = one_turn_on-Sound lawful p.context p.fetched p.meets s

  -- Two parts of a run, one after the other.
  both_Sound :
      (s : S) (first second : Run S) (e : Ended)
      → Sound s first
      → Sound first.state second
      → Sound s
          (record { state = second.state; replies = first.replies ++ second.replies; ended = e })
  both_Sound s first second e one two = record {
    keeps = λ it d. two.keeps it (one.keeps it d);
    acks =
        All-append (λ r. r.answer ≡ ack → IsStored second.state r.to_message) first.replies
          second.replies (AcksStored-map first.state second.state first.replies two.keeps one.acks)
          two.acks;
  }

  go_on-Sound :
      (s : S) (e : Ended) (first rest : Run S)
      → Sound s first
      → Sound first.state rest
      → Sound s (go_on unmarshal h e first rest)
  unfolding go_on
  go_on-Sound s running first rest one two = both_Sound s first rest rest.ended one two
  go_on-Sound s returned_nil first rest one two = one
  go_on-Sound s context_error first rest one two = one
  go_on-Sound s fetch_failed first rest one two = one
  go_on-Sound s fetch_batch_failed first rest one two = one

  -- Whenever the loop has acknowledged a message, in a run of any length that ends in any way, the
  -- store that the run leaves holds the record that the message decodes to, durably; and whatever
  -- was durable before the run is durable after it.
  pub consume-Sound : Lawful → (ps : List (Poll E)) (s : S) → Sound s (consume unmarshal h ps s)
  unfolding consume
  consume-Sound lawful [] s = idle-Sound s running
  consume-Sound lawful (p ∷ ps) s =
      go_on-Sound s (one_turn unmarshal h p s).ended (one_turn unmarshal h p s)
        (consume unmarshal h ps (one_turn unmarshal h p s).state) (one_turn-Sound lawful p s)
        (consume-Sound lawful ps (one_turn unmarshal h p s).state)

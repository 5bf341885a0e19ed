-- ===== src/Stream/Answered.antt =====
-- Every message that the loop fetches is answered, once.
use mathlib.Core.List.{append-nil, Perm, perm_middle}
use mathlib.Core.List.Perm
use ghost_trace.Prelude.{
  ◌≡◌, refl, sym, ap, ◌∙◌, Bool, subst, inl, inr, true, false, List, [], ◌∷◌, ◌++◌, map, Option,
  none, some, arith, Option-cases, if◌then◌else◌,
}
use ghost_trace.Canonical.{Bytes}
use ghost_trace.Consumer.{ArchiveRecord, Item}
use ghost_trace.Stream.Consume.{
  item_of, delivery_of, Incoming, Answer, ack, nak_with_delay, nak_backoff, term, Reply, reply_all,
  alive, messages, Poll, running, BatchHandler, Run, receive, commit, settle, take_messages,
  one_turn_on, one_turn, go_on, consume,
}
use ghost_trace.Stream.Received.{after_report, receive_undecodable, receive_decodable}

-- A turn in which the context is alive and the fetch brings its messages.
abbrev pub quiet_poll : {E : Type 0} → List Incoming × E → Poll E
quiet_poll (ms, meets) = record { context = alive; fetched = messages ms false; meets = meets }

module _ {E S : Type 0} (unmarshal : Bytes → Option ArchiveRecord) (h : BatchHandler E S) where
  -- The answer that a message gets when the batch of its fetch is answered with `a`.
  unfoldable pub answer_with : Answer → Incoming → Reply
  answer_with a m = record {
    to_message = m;
    answer = elim (unmarshal m.data_bytes) [ none ↦ term | some _ ↦ a ];
  }

  answer_undecodable :
      (a : Answer) (m : Incoming)
      → unmarshal m.data_bytes ≡ none
      → record { to_message = m; answer = term } ≡ answer_with a m
  unfolding answer_with
  answer_undecodable a m bad = rw bad refl

  answer_decodable :
      (a : Answer) (m : Incoming) (rec : ArchiveRecord)
      → unmarshal m.data_bytes ≡ some rec
      → record { to_message = m; answer = a } ≡ answer_with a m
  unfolding answer_with
  answer_decodable a m rec good = rw good refl

  receive-Perm :
      (a : Answer) (meets : E) (ms : List Incoming) (s : S)
      → Perm
          ((receive unmarshal h meets ms s).replies
            ++ reply_all a (receive unmarshal h meets ms s).held)
          (map (answer_with a) ms)
  unfolding receive
  receive-Perm a meets [] s = Perm.nil
  receive-Perm a meets (m ∷ ms) s = elim (Option-cases (unmarshal m.data_bytes)) [
    | inl bad ↦ rw (receive_undecodable unmarshal h meets m ms s bad) (
        Perm.cons' (answer_undecodable a m bad)
          (receive-Perm a meets ms (after_report unmarshal h meets m ms s)))
    | inr (rec, good) ↦ rw (receive_decodable unmarshal h meets m ms s rec good) (
        Perm.trans
          (perm_middle (receive unmarshal h meets ms s).replies
            (reply_all a (receive unmarshal h meets ms s).held))
          (Perm.cons' (answer_decodable a m rec good) (receive-Perm a meets ms s)))
  ]

  -- The batch and the messages that were held for it are of one length.
  receive-paired :
      (meets : E) (ms : List Incoming) (s : S)
      → (receive unmarshal h meets ms s).batch ≡ []
      → (receive unmarshal h meets ms s).held ≡ []
  unfolding receive
  receive-paired meets [] s e = refl
  receive-paired meets (m ∷ ms) s e = elim (Option-cases (unmarshal m.data_bytes)) [
    | inl bad ↦
        let step = receive_undecodable unmarshal h meets m ms s bad in
        rw step (receive-paired meets ms (after_report unmarshal h meets m ms s) (rw step at e))
    | inr (rec, good) ↦
        let e' = rw (receive_decodable unmarshal h meets m ms s rec good) at e in
        absurd (ground arith)
  ]

  -- What a fetch should come to: the items of the messages that decode, in order; the state after
  -- the others are reported; and the handler's word on the items, if there are any.
  unfoldable pub decoded : List Incoming → List Item
  decoded [] = []
  decoded (m ∷ ms) = elim (unmarshal m.data_bytes) [
    | none ↦ decoded ms
    | some rec ↦ item_of rec (delivery_of m.metadata) ∷ decoded ms
  ]

  unfoldable pub reported : E → List Incoming → S → S
  reported meets [] s = s
  reported meets (m ∷ ms) s = elim (unmarshal m.data_bytes) [
    | none ↦ reported meets ms (after_report unmarshal h meets m ms s)
    | some rec ↦ reported meets ms s
  ]

  unfoldable pub handled : E → List Item → S → S × Bool
  handled meets [] s = (s, true)
  handled meets (i ∷ is) s = h.handle meets (i ∷ is) s

  abbrev pub after_fetch : E → List Incoming → S → S × Bool
  after_fetch meets ms s = handled meets (decoded ms) (reported meets ms s)

  abbrev pub answer_for : Bool → Answer
  answer_for committed = if committed then ack else nak_with_delay nak_backoff

  -- What the fetches of a run should be answered, and the state that the run should leave.
  unfoldable pub expected_replies : List (List Incoming × E) → S → List Reply
  expected_replies [] s = []
  expected_replies ((ms, meets) ∷ rounds) s =
      map (answer_with (answer_for (after_fetch meets ms s).1)) ms
      ++ expected_replies rounds (after_fetch meets ms s).0

  unfoldable pub expected_state : List (List Incoming × E) → S → S
  expected_state [] s = s
  expected_state ((ms, meets) ∷ rounds) s = expected_state rounds (after_fetch meets ms s).0

  receive-decoded :
      (meets : E) (ms : List Incoming) (s : S)
      → ((receive unmarshal h meets ms s).batch ≡ decoded ms)
        × ((receive unmarshal h meets ms s).state ≡ reported meets ms s)
  unfolding receive decoded reported
  receive-decoded meets [] s = (refl, refl)
  receive-decoded meets (m ∷ ms) s = elim (Option-cases (unmarshal m.data_bytes)) [
    | inl bad ↦
        rw (bad, receive, decoded, reported)
          (receive-decoded meets ms (after_report unmarshal h meets m ms s))
    | inr (rec, good) ↦
        let (items, state) = receive-decoded meets ms s in
        rw (good, receive, decoded, reported)
          (ap (λ is. item_of rec (delivery_of m.metadata) ∷ is) items, state)
  ]

  settle-handled :
      (meets : E) (s : S) (batch : List Item) (held : List Incoming) (replies : List Reply)
      → (batch ≡ [] → held ≡ [])
      → settle unmarshal h meets
          (record { state = s; batch = batch; held = held; replies = replies })
        ≡ record {
          state = (handled meets batch s).0;
          replies = replies ++ reply_all (answer_for (handled meets batch s).1) held;
          ended = running;
        }
  unfolding settle commit handled
  settle-handled meets s [] held replies none_held = rw (none_held refl, append-nil) refl
  settle-handled meets s (i ∷ is) held replies none_held = refl

  settle-fetched :
      (meets : E) (ms : List Incoming) (s : S)
      → settle unmarshal h meets (receive unmarshal h meets ms s) ≡ record {
        state = (after_fetch meets ms s).0;
        replies =
            (receive unmarshal h meets ms s).replies
            ++ reply_all
                (answer_for (after_fetch meets ms s).1)
                (receive unmarshal h meets ms s).held;
        ended = running;
      }
  settle-fetched meets ms s =
      let t = receive unmarshal h meets ms s in
      let (items, state) = receive-decoded meets ms s in
      let same : handled meets t.batch t.state ≡ after_fetch meets ms s =
        ap (λ is. handled meets is t.state) items ∙ ap (handled meets (decoded ms)) state in
      settle-handled meets t.state t.batch t.held t.replies (receive-paired meets ms s)
      ∙ ap
          (λ (p : S × Bool). record {
            state = p.0;
            replies = t.replies ++ reply_all (answer_for p.1) t.held;
            ended = running;
          })
          same

  -- While the context is alive and the fetches succeed, the loop does not end, whatever the handler
  -- answers, and each message of every fetch is answered exactly once: terminated if it does not
  -- decode, and else, with the others of its fetch that decode, acknowledged if the handler returned
  -- no error for them, and told to be delivered again after the backoff if it returned one. The
  -- state that the run leaves is that of the handler called once for each fetch, on the messages of
  -- it that decode, in their order, after the others were reported, and not at all where none
  -- decodes.
  pub consume-live :
      (rounds : List (List Incoming × E)) (s : S)
      → ((consume unmarshal h (map quiet_poll rounds) s).ended ≡ running)
        × ((consume unmarshal h (map quiet_poll rounds) s).state ≡ expected_state rounds s)
        × Perm (consume unmarshal h (map quiet_poll rounds) s).replies (expected_replies rounds s)
  unfolding consume one_turn one_turn_on take_messages go_on expected_state expected_replies
  consume-live [] s = (refl, refl, Perm.nil)
  consume-live ((ms, meets) ∷ rounds) s =
      let (goes_on, state, answered) = consume-live rounds (after_fetch meets ms s).0 in
      subst
        (λ (first : Run S).
          ((go_on unmarshal h first.ended first
              (consume unmarshal h (map quiet_poll rounds) first.state)).ended
            ≡ running)
          × ((go_on unmarshal h first.ended first
                (consume unmarshal h (map quiet_poll rounds) first.state)).state
              ≡ expected_state rounds (after_fetch meets ms s).0)
          × Perm
              (go_on unmarshal h first.ended first
                (consume unmarshal h (map quiet_poll rounds) first.state)).replies
              (map (answer_with (answer_for (after_fetch meets ms s).1)) ms
                ++ expected_replies rounds (after_fetch meets ms s).0))
        (sym (settle-fetched meets ms s))
        (
          goes_on,
          state,
          Perm.append (receive-Perm (answer_for (after_fetch meets ms s).1) meets ms s) answered,
        )

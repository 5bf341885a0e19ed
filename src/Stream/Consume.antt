-- ===== src/Stream/Consume.antt =====
-- `Consume` of jetstream.go: the pull loop between the broker and the handler. What the broker
-- answers in a turn of the loop is a `Poll`; a run of the loop is what it does on a list of them.
use ghost_trace.Prelude.{
  ℕ, ◌*◌, ◌^◌, Bool, false, List, [], ◌∷◌, ◌++◌, map, Option, none, some, length, ltb,
  if◌then◌else◌,
}
use ghost_trace.Canonical.{Bytes}
use ghost_trace.Consumer.{ArchiveRecord, Item}

-- What the broker says about a message: its sequence in the stream, and how often it was delivered.
pub record Metadata : Type 0 where
  pub stream_sequence : ℕ
  pub num_delivered : ℕ

-- jetstream.Msg; `none` where its metadata cannot be read.
pub record Incoming : Type 0 where
  pub metadata : Option Metadata
  pub data_bytes : Bytes

pub record Delivery : Type 0 where
  pub sequence : ℕ
  pub redelivered : Bool

unfoldable pub delivery_of : Option Metadata → Delivery
delivery_of none = record { sequence = 0; redelivered = false }
delivery_of (some md) = record {
  sequence = md.stream_sequence;
  redelivered = ltb 1 md.num_delivered;
}

pub data Answer : Type 0 where
  ack : Answer
  nak_with_delay : ℕ → Answer
  term : Answer

-- An answer to the broker, with the message it is about.
pub record Reply : Type 0 where
  pub to_message : Incoming
  pub answer : Answer

abbrev pub batch_size : ℕ
batch_size = 128

-- In nanoseconds.
abbrev pub nak_backoff : ℕ
nak_backoff = 2 * 10 ^ 9

pub data Context : Type 0 where
  alive cancelled expired : Context

-- What `Fetch` comes to: an error, with whether it was the context's; or messages, with whether an
-- error ended them while the context was alive.
pub data Fetched : Type 0 where
  fetch_error : Bool → Fetched
  messages : List Incoming → Bool → Fetched

-- One turn of the loop: the context at its head, the fetch, and what the handler meets.
pub record Poll (E : Type 0) : Type 0 where
  pub context : Context
  pub fetched : Fetched
  pub meets : E

-- How the loop ended; `running` where the polls ran out before it did.
pub data Ended : Type 0 where
  running : Ended
  returned_nil : Ended
  context_error : Ended
  fetch_failed : Ended
  fetch_batch_failed : Ended

-- The handler of a batch, whose Boolean is that it returned no error, and the option
-- WithUndecodable, which is told how many messages of the fetch are left.
pub record BatchHandler (E S : Type 0) : Type 0 where
  pub handle : E → List Item → S → S × Bool
  pub on_undecodable : Option (E → ℕ → Delivery → S → S)

-- The variables of a turn, with what it sent.
pub record Taken (S : Type 0) : Type 0 where
  pub state : S
  pub batch : List Item
  pub held : List Incoming
  pub replies : List Reply

pub record Run (S : Type 0) : Type 0 where
  pub state : S
  pub replies : List Reply
  pub ended : Ended

abbrev pub item_of : ArchiveRecord → Delivery → Item
item_of rec d = record { archive_record = rec; sequence = d.sequence }

abbrev pub reply_all : Answer → List Incoming → List Reply
reply_all a held = map (λ m. record { to_message = m; answer = a }) held

module _ {E S : Type 0} (unmarshal : Bytes → Option ArchiveRecord) (h : BatchHandler E S) where
  abbrev pub report_undecodable : E → ℕ → Delivery → S → S
  report_undecodable meets left d s = elim h.on_undecodable [ none ↦ s | some f ↦ f meets left d s ]

  -- The loop over the messages of one fetch.
  unfoldable pub receive : E → List Incoming → S → Taken S
  receive meets [] s = record { state = s; batch = []; held = []; replies = [] }
  receive meets (m ∷ ms) s = elim (unmarshal m.data_bytes) [
    | none ↦
        let rest =
          receive meets ms (report_undecodable meets (length ms) (delivery_of m.metadata) s) in
        record rest { replies = record { to_message = m; answer = term } ∷ rest.replies }
    | some rec ↦
        let rest = receive meets ms s in
        record rest {
          batch = item_of rec (delivery_of m.metadata) ∷ rest.batch;
          held = m ∷ rest.held;
        }
  ]

  -- The handler's call, and the answer to every message that was held.
  unfoldable pub commit : E → Taken S → Run S
  commit meets t =
      let done = h.handle meets t.batch t.state in
      record {
        state = done.0;
        replies =
            t.replies ++ reply_all (if done.1 then ack else nak_with_delay nak_backoff) t.held;
        ended = running;
      }

  -- The end of a turn; an empty batch is not handled.
  unfoldable pub settle : E → Taken S → Run S
  settle meets t = elim t.batch [
    | [] ↦ record { state = t.state; replies = t.replies; ended = running }
    | _ ∷ _ ↦ commit meets t
  ]

  -- The messages of a fetch, and the error that ended them, if any.
  unfoldable pub take_messages : E → List Incoming → Bool → S → Run S
  take_messages meets ms broken s =
      let t = receive meets ms s in
      if broken
      then record { state = t.state; replies = t.replies; ended = fetch_batch_failed }
      else settle meets t

  unfoldable pub one_turn_on : Context → Fetched → E → S → Run S
  one_turn_on cancelled fetched meets s = record { state = s; replies = []; ended = returned_nil }
  one_turn_on expired fetched meets s = record { state = s; replies = []; ended = context_error }
  one_turn_on alive (fetch_error stopping) meets s = record {
    state = s;
    replies = [];
    ended = if stopping then returned_nil else fetch_failed;
  }
  one_turn_on alive (messages ms broken) meets s = take_messages meets ms broken s

  unfoldable pub one_turn : Poll E → S → Run S
  one_turn p s = one_turn_on p.context p.fetched p.meets s

  -- The loop goes on after a turn that did not return.
  unfoldable pub go_on : Ended → Run S → Run S → Run S
  go_on running first rest = record rest { replies = first.replies ++ rest.replies }
  go_on _ first rest = first

  unfoldable pub consume : List (Poll E) → S → Run S
  unfolding go_on
  consume [] s = record { state = s; replies = []; ended = running }
  consume (p ∷ ps) s =
      let first = one_turn p s in let rest = consume ps first.state in go_on first.ended first rest

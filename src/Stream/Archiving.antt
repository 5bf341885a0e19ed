-- ===== src/Stream/Archiving.antt =====
-- services/archive/cmd/archive/main.go: the loop with the archive's consumer as its handler.
use ghost_trace.Prelude.{
  ℕ, ◌≡◌, ◌≢◌, refl, ap, Bool, true, false, List, [], ◌∷◌, Option, some, arith, All, All-map,
  length, bytes_comparable, inr, ◌∙◌,
}
use ghost_trace.Prelude.Int.{ℤ}
use ghost_trace.Prelude.Dict.{lookup}
use ghost_trace.Canonical.{Bytes}
use ghost_trace.Substrate.{Result, ok, err, StoredRow, Io}
use ghost_trace.Consumer.{ArchiveRecord, Item}
use ghost_trace.Consumer.Handle.{Archive, handle_batch, undecodable}
use ghost_trace.Consumer.Keeping.{handle_batch-RowsKept, undecodable-RowsKept}
use ghost_trace.Consumer.Outcomes.{ItemIsDurable, handle_batch-ItemIsDurable}
use ghost_trace.Consumer.HexRoundTrip.{IsBytes, decode_hash-hash_hex}
use ghost_trace.Stream.Archive.{Message, Outgoing, append}
use ghost_trace.Stream.Publishing.{record_with, append-record_with}
use ghost_trace.Stream.Consume.{delivery_of, ack, Poll, BatchHandler, consume}
use ghost_trace.Stream.Acknowledged.{Lawful, AcksStored, consume-Sound}

-- What the consumer meets in a turn: the outcomes of its store's calls, and the clock.
pub record Meets : Type 0 where
  pub io : Io
  pub each_io : ℕ → Io
  pub last_io : Io
  pub report_io : ℕ → Io
  pub at_time : ℤ

abbrev pub is_ok : Result (Unit {0}) → Bool
is_ok (ok _) = true
is_ok (err _) = false

abbrev pub batch_handler : (Bytes → Bytes) → Meets → List Item → Archive → Archive × Bool
batch_handler hash meets batch a =
    let done = handle_batch hash meets.io meets.each_io meets.last_io meets.at_time batch a in
    (done.0, is_ok done.1)

ok_answer : (q : Archive × Result (Unit {0})) → is_ok q.1 ≡ true → q ≡ (q.0, ok tt)
ok_answer (a, ok tt) e = refl
ok_answer (a, err x) e = absurd (ground arith)

-- `Consume(ctx, js, cons.HandleBatch, …, WithUndecodable(cons.Undecodable))`
abbrev pub archive_handler : (Bytes → Bytes) → BatchHandler Meets Archive
archive_handler hash = record {
  handle = batch_handler hash;
  on_undecodable = some (λ meets left d a. undecodable (meets.report_io left) d.sequence a);
}

module _ (hash : Bytes → Bytes) (unmarshal : Bytes → Option ArchiveRecord) where
  abbrev pub InStore : Archive → Item → Type 0
  InStore a = ItemIsDurable hash a.store.db.events

  archive_handler-Lawful : Lawful unmarshal (archive_handler hash) InStore
  archive_handler-Lawful = record {
    handle_keeps = λ meets batch a it d h placed good same.
        let (x, held) = d h placed good same in
        (
          x,
          handle_batch-RowsKept hash meets.io meets.each_io meets.last_io meets.at_time batch a h x
              held,
        );
    undecodable_keeps = λ meets left m a it d h placed good same.
        let (x, held) = d h placed good same in
        (x, undecodable-RowsKept (meets.report_io left) m.sequence a h x held);
    commits = λ meets batch a committed.
        handle_batch-ItemIsDurable hash meets.io meets.each_io meets.last_io meets.at_time batch a
          (batch_handler hash meets batch a).0
          (ok_answer (handle_batch hash meets.io meets.each_io meets.last_io meets.at_time batch a)
            committed);
  }

  -- In a run of the archive's loop of any length, which ends in any way, every acknowledged message
  -- that decodes to a record with a sequence, a hash of 32 bytes and the bytes that have that hash
  -- is a row of the store that the run leaves, whatever the later turns did.
  pub consume-archived :
      (ps : List (Poll Meets)) (a : Archive)
      → AcksStored unmarshal
          (archive_handler hash)
          InStore
          (consume unmarshal (archive_handler hash) ps a).state
          (consume unmarshal (archive_handler hash) ps a).replies
  consume-archived ps a =
      (consume-Sound unmarshal (archive_handler hash) InStore archive_handler-Lawful ps a).acks

  module _ {M : Type 0} (canonical : M → Option Bytes)
      (marshal : ArchiveRecord → Option Bytes) where
    -- When Append has reported no error, and any run of the archive's loop has acknowledged a
    -- delivery of the bytes that it sent, at a position that is not 0, the store that the run leaves
    -- has a row under the hash of the message's canonical bytes: for a hash of 32 bytes, and records
    -- that are read back as they were written.
    pub append-archived :
        ((r : ArchiveRecord) (b : Bytes) → marshal r ≡ some b → unmarshal b ≡ some r)
        → ((b : Bytes) → IsBytes (hash b) × (length (hash b) ≡ 32))
        → (accepted : Bool) (msg : Message M) (event_time : ℤ) (sent : List Outgoing)
        → append canonical hash marshal accepted msg event_time ≡ (inr tt, sent)
        → (ps : List (Poll Meets)) (a : Archive)
        → (m : Outgoing) × (payload : Bytes) × (sent ≡ m ∷ [])
          × (canonical msg.body ≡ some payload)
          × All
              (λ r.
                r.answer ≡ ack
                → r.to_message.data_bytes ≡ m.data_bytes
                → (delivery_of r.to_message.metadata).sequence ≢ 0
                → (x : StoredRow) × (lookup
                      (hash payload)
                      (consume unmarshal (archive_handler hash) ps a).state.store.db.events
                    ≡ some x))
              (consume unmarshal (archive_handler hash) ps a).replies
    append-archived reads is_hash accepted msg event_time sent e ps a =
        let (m, payload, tenant, one, bytes, written) =
          append-record_with canonical hash marshal accepted msg event_time sent e in
        let rec = record_with canonical hash marshal msg event_time tenant payload in
        (
          m,
          payload,
          one,
          bytes,
          All-map _ _ _
              (λ r stored acked same placed.
                stored acked rec (ap unmarshal same ∙ reads rec m.data_bytes written) (hash payload)
                  placed
                  (decode_hash-hash_hex (hash payload) (is_hash payload).0 (is_hash payload).1)
                  refl)
              (consume-archived ps a),
        )

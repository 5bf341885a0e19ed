-- ===== src/Stream/Tests.antt =====
-- One record on its way from an Append to the archive, and one snapshot of two tenants.
use mathlib.Core.List.{Perm}
use ghost_trace.Prelude.{
  ℕ, ◌≡◌, ◌≢◌, inl, inr, refl, ap, sym, ◌∙◌, arith, Bool, true, false, ◌&&◌, List, [], ◌∷◌, map,
  Option, none, some, All, length, ◌==◌, ℕ_comparable, bytes_comparable, bytes_equal,
  bytes_equal_iff, string_comparable, Bool-cases, if◌then◌else◌,
}
use ghost_trace.Prelude.Int.{ℤ, pos, int_eq}
use ghost_trace.Prelude.Text.{Text, codes}
use ghost_trace.Prelude.Dict.{contains, insert, lookup}
use ghost_trace.Canonical.{Bytes, hash_hex}
use ghost_trace.Substrate.{Io, StoredRow}
use ghost_trace.Substrate.Tests.{good_io}
use ghost_trace.Substrate.History.{empty_substrate}
use ghost_trace.Substrate.Batch.{
  append_canonical_batch, verify, commit_batch, write_all_oversized, cover, cover_rejected,
  insert_records, position_upsert, stored_row, transact,
}
use ghost_trace.Substrate.Append.{write_oversized, insert_or_ignore}
use ghost_trace.Substrate.Blob.{blob_path}
use ghost_trace.Consumer.{decode_hash, hex_decode, ArchiveRecord}
use ghost_trace.Consumer.Handle.{
  handle_batch, partition, account_poisoned, count_unplaced, isolate, isolate_each, isolate_step,
  report, report_notes, report_records, Archive, classify, keep,
}
use ghost_trace.Consumer.HexRoundTrip.{IsBytes}
use ghost_trace.Stream.{Kind, kind_for, kind_in, sanitize_token, subject}
use ghost_trace.Stream.Archive.{
  Message, Outgoing, tenant_of, subject_for, record_of, marshal_and_hash, outgoing, publish, append,
}
use ghost_trace.Stream.Publishing.{append-classify}
use ghost_trace.Stream.Consume.{
  Incoming, delivery_of, ack, nak_with_delay, nak_backoff, term, Poll, Run, running, consume,
}
use ghost_trace.Stream.Acknowledged.{AcksStored}
use ghost_trace.Stream.Answered.{
  answer_with, handled, decoded, reported, quiet_poll, expected_replies, expected_state,
  consume-live,
}
use ghost_trace.Stream.Archiving.{
  Meets, archive_handler, InStore, consume-archived, append-archived,
}

abbrev seven_hash : Bytes → Bytes
seven_hash b =
    7 ∷ 7 ∷ 7 ∷ 7 ∷ 7 ∷ 7 ∷ 7 ∷ 7 ∷ 7 ∷ 7 ∷ 7 ∷ 7 ∷ 7 ∷ 7 ∷ 7 ∷ 7 ∷ 7 ∷ 7 ∷ 7 ∷ 7 ∷ 7 ∷ 7 ∷ 7 ∷ 7
    ∷ 7 ∷ 7 ∷ 7 ∷ 7 ∷ 7 ∷ 7 ∷ 7 ∷ 7 ∷ []

seven_hash_lem : (b : Bytes) → IsBytes (seven_hash b) × (length (seven_hash b) ≡ 32)
seven_hash_lem b = ground arith

abbrev outcome_name : Text
outcome_name = codes "ghosttrace.events.v1.Outcome"

abbrev sample_message : Message Bytes
sample_message = record {
  body = 1 ∷ 2 ∷ [];
  full_name = outcome_name;
  tenant_id = some (codes "acme");
}

abbrev sample_record : ArchiveRecord
sample_record = record {
  event_hash = hash_hex (seven_hash (1 ∷ 2 ∷ []));
  canonical_payload = 1 ∷ 2 ∷ [];
  event_time = pos 5;
  message_type = outcome_name;
  tenant = codes "acme";
}

abbrev is_same : ArchiveRecord → ArchiveRecord → Bool
is_same q r =
    r.event_hash == q.event_hash
    && r.canonical_payload == q.canonical_payload
    && int_eq r.event_time q.event_time
    && r.message_type == q.message_type
    && r.tenant == q.tenant

int_eq_lem : (t u : ℤ) → int_eq t u ≡ true → t ≡ u
int_eq_lem t u e = ground arith

and_lem : (a b : Bool) → (a && b) ≡ true → (a ≡ true) × (b ≡ true)
and_lem true b e = (refl, e)
and_lem false b e = absurd (ground arith)

is_same_lem : (q r : ArchiveRecord) → is_same q r ≡ true → q ≡ r
is_same_lem q r e = ground (
  arith,
  bytes_equal_iff r.event_hash q.event_hash,
  bytes_equal_iff r.canonical_payload q.canonical_payload,
  int_eq_lem r.event_time q.event_time,
  bytes_equal_iff r.message_type q.message_type,
  bytes_equal_iff r.tenant q.tenant,
)

-- An encoding of one record.
abbrev encode : ArchiveRecord → Option Bytes
encode r = if is_same sample_record r then some (9 ∷ []) else none

abbrev decode : Bytes → Option ArchiveRecord
decode b = if b == 9 ∷ [] then some sample_record else none

nine_lem :
    (t : Bool) (b : Bytes) → t ≡ true → (if t then some (9 ∷ []) else none) ≡ some b → 9 ∷ [] ≡ b
nine_lem true b same e = ground arith
nine_lem false b same e = absurd (ground arith)

none_lem : (t : Bool) (b : Bytes) → t ≡ false → (if t then some (9 ∷ []) else none) ≢ some b
none_lem true b same e = ground arith
none_lem false b same e = ground arith

encoded_lem :
    (q r : ArchiveRecord) (b : Bytes)
    → (if is_same q r then some (9 ∷ []) else none) ≡ some b
    → (q ≡ r) × (9 ∷ [] ≡ b)
encoded_lem q r b e = elim (Bool-cases (is_same q r)) [
  | inl same ↦ (is_same_lem q r same, nine_lem (is_same q r) b same e)
  | inr other ↦ absurd (none_lem (is_same q r) b other e)
]

encode-decode : (r : ArchiveRecord) (b : Bytes) → encode r ≡ some b → decode b ≡ some r
unfolding bytes_equal
encode-decode r b e =
    let (is_sample, nine) = encoded_lem sample_record r b e in
    ap decode (sym nine) ∙ ap some is_sample

abbrev sent_sample : List Outgoing
sent_sample =
    record {
      to_subject = codes "gt.events.v1.outcome.acme";
      data_bytes = 9 ∷ [];
      msg_id = sample_record.event_hash;
    }
    ∷ []

sample_appended : append some seven_hash encode true sample_message (pos 5) ≡ (inr tt, sent_sample)
unfolding append record_of marshal_and_hash tenant_of publish outgoing subject_for subject
    sanitize_token kind_in bytes_equal hash_hex
sample_appended = refl

abbrev quiet : Meets
quiet = record {
  io = good_io;
  each_io = λ k. good_io;
  last_io = good_io;
  report_io = λ k. good_io;
  at_time = pos 9;
}

-- The sample's bytes at the first position, and bytes that do not decode at the second.
abbrev delivered : Incoming
delivered = record {
  metadata = some (record { stream_sequence = 1; num_delivered = 1 });
  data_bytes = 9 ∷ [];
}

abbrev corrupt : Incoming
corrupt = record {
  metadata = some (record { stream_sequence = 2; num_delivered = 1 });
  data_bytes = 0 ∷ [];
}

abbrev one_poll : List (Poll Meets)
one_poll = quiet_poll (delivered ∷ corrupt ∷ [], quiet) ∷ []

abbrev new_archive : Archive
new_archive = record {
  consumer = record { committed = 0; rejected = 0; meter = [] };
  store = empty_substrate;
}

abbrev sample_run : Run Archive
sample_run = consume decode (archive_handler seven_hash) one_poll new_archive

consume-archived_example :
    AcksStored decode
      (archive_handler seven_hash)
      (InStore seven_hash decode)
      sample_run.state
      sample_run.replies
consume-archived_example = consume-archived seven_hash decode one_poll new_archive

append-archived_example :
    (m : Outgoing) × (payload : Bytes) × (sent_sample ≡ m ∷ [])
    × (◌≡◌ {A = Option Bytes} (some (1 ∷ 2 ∷ [])) (some payload))
    × All
        (λ r.
          r.answer ≡ ack
          → r.to_message.data_bytes ≡ m.data_bytes
          → (delivery_of r.to_message.metadata).sequence ≢ 0
          → (x : StoredRow) × (lookup (seven_hash payload) sample_run.state.store.db.events
              ≡ some x))
        sample_run.replies
append-archived_example =
    append-archived seven_hash decode some encode encode-decode seven_hash_lem true sample_message
      (pos 5) sent_sample sample_appended one_poll new_archive

append-classify_example :
    (m : Outgoing) × (payload : Bytes) × (tenant : Text) × (r : ArchiveRecord) × (k : Kind)
    × (sent_sample ≡ m ∷ [])
    × (true ≡ true)
    × (◌≡◌ {A = Option Bytes} (some (1 ∷ 2 ∷ [])) (some payload))
    × (sample_message.tenant_id ≡ some tenant)
    × (tenant ≢ [])
    × (kind_for sample_message.full_name ≡ some k)
    × (m.to_subject ≡ subject k tenant)
    × (m.msg_id ≡ hash_hex (seven_hash payload))
    × (decode m.data_bytes ≡ some r)
    × ((n : ℕ)
        → n ≢ 0
        → classify (record { archive_record = r; sequence = n })
          ≡ keep (record {
            payload = payload;
            event_hash = seven_hash payload;
            event_time = pos 5;
            message_type = sample_message.full_name;
            seq = n;
          }))
append-classify_example =
    append-classify some seven_hash encode decode encode-decode seven_hash_lem true sample_message
      (pos 5) sent_sample sample_appended

abbrev no_commit : Io
no_commit = record good_io { commit_ok = false }

-- In the first turn the archive's database cannot commit, and the message comes again in the second.
abbrev failing : Meets
failing = record quiet { io = no_commit; each_io = λ k. no_commit; last_io = no_commit }

abbrev two_rounds : List (List Incoming × Meets)
two_rounds = (delivered ∷ corrupt ∷ [], failing) ∷ (delivered ∷ [], quiet) ∷ []

-- The answers of `consume-live` on them.
two_rounds_answered :
    expected_replies decode (archive_handler seven_hash) two_rounds new_archive
    ≡ record { to_message = delivered; answer = nak_with_delay nak_backoff }
      ∷ record { to_message = corrupt; answer = term }
      ∷ record { to_message = delivered; answer = ack }
      ∷ []
unfolding expected_replies answer_with bytes_equal handled decoded handle_batch
    append_canonical_batch partition classify delivery_of decode_hash hex_decode hash_hex verify
    commit_batch write_all_oversized write_oversized account_poisoned count_unplaced isolate
    isolate_each isolate_step report report_notes report_records contains insert lookup reported
    insert_or_ignore cover cover_rejected insert_records position_upsert stored_row transact
    blob_path
two_rounds_answered = refl

consume-live_example :
    ((consume decode (archive_handler seven_hash) (map quiet_poll two_rounds) new_archive).ended
      ≡ running)
    × ((consume decode (archive_handler seven_hash) (map quiet_poll two_rounds) new_archive).state
        ≡ expected_state decode (archive_handler seven_hash) two_rounds new_archive)
    × Perm
        (consume decode
          (archive_handler seven_hash)
          (map quiet_poll two_rounds)
          new_archive).replies
        (expected_replies decode (archive_handler seven_hash) two_rounds new_archive)
consume-live_example = consume-live decode (archive_handler seven_hash) two_rounds new_archive

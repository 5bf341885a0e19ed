-- ===== src/Collector/IngestTests.antt =====
-- One message that the collector commits into an empty archive.
use ghost_trace.Prelude.{◌≡◌, refl, true, some, [], ◌∷◌, inr, Option, bytes_equal}
use ghost_trace.Prelude.Int.{ℤ, pos}
use ghost_trace.Prelude.Text.{codes}
use ghost_trace.Canonical.{Bytes, hash_hex}
use ghost_trace.Substrate.{ok, Substrate, Io}
use ghost_trace.Substrate.Append.{append, append_canonical}
use ghost_trace.Substrate.Read.{read_blob}
use ghost_trace.Substrate.Tests.{same_bytes, good_io}
use ghost_trace.Substrate.History.{empty_substrate}
use ghost_trace.Stream.Archive.{Message, marshal_and_hash}
use ghost_trace.Collector.Ingest.{Report, ingest_append}
use ghost_trace.Collector.Ingested.{report_on, ingest_append-once}

abbrev as_bytes : Bytes → Option Bytes
as_bytes b = some b

abbrev outcome : Message Bytes
outcome = record {
  body = 7 ∷ 255 ∷ [];
  full_name = codes "ghosttrace.events.v1.Outcome";
  tenant_id = some (codes "acme");
}

abbrev outcome_report : Report
outcome_report = record {
  sum = 7 ∷ 255 ∷ [];
  sum_hex = codes "07ff";
  message_type = codes "ghosttrace.events.v1.Outcome";
}

abbrev after : Substrate
after = (ingest_append as_bytes same_bytes good_io outcome (pos 5) (pos 9) empty_substrate).0

committed :
    ingest_append as_bytes same_bytes good_io outcome (pos 5) (pos 9) empty_substrate
    ≡ (after, inr outcome_report)
unfolding ingest_append marshal_and_hash append_canonical bytes_equal append hash_hex
committed = refl

ingest_append-once_example :
    (payload : Bytes) × (as_bytes outcome.body ≡ some payload)
    × (outcome_report ≡ report_on as_bytes same_bytes outcome payload)
    × ((held : Bytes) × (read_blob same_bytes true (same_bytes payload) after ≡ ok held)
        × (same_bytes held ≡ same_bytes payload))
    × ((again : Io) (later later_at : ℤ)
        → (ingest_append as_bytes same_bytes again outcome later later_at after).0.db ≡ after.db)
ingest_append-once_example =
    ingest_append-once as_bytes same_bytes good_io outcome (pos 5) (pos 9) empty_substrate after
      outcome_report (tt, tt) committed

-- ===== src/Collector/Ingested.antt =====
-- A record that the collector committed itself is in the archive, once.
use ghost_trace.Prelude.{
  ◌≡◌, refl, sym, ap, ◌∙◌, arith, true, Option, Option-cases, some, ◌⊎◌, inl, inr, bytes_comparable,
}
use ghost_trace.Prelude.Int.{ℤ}
use ghost_trace.Canonical.{Bytes, hash_hex}
use ghost_trace.Substrate.{Result, ok, err, Substrate, Io}
use ghost_trace.Substrate.Append.{append_canonical}
use ghost_trace.Substrate.Read.{read_blob, lookup_row}
use ghost_trace.Substrate.Soundness.{IsSound}
use ghost_trace.Substrate.Rows.{append_canonical-IsSound}
use ghost_trace.Substrate.Once.{append_canonical-holds, append_canonical-held}
use ghost_trace.Substrate.History.{read_blob-lookup_row}
use ghost_trace.Stream.Archive.{Message, marshal_and_hash}
use ghost_trace.Collector.Ingest.{AppendError, Report, with_report, ingest_append}

with_report-cases :
    (r : Report) (q : Substrate × Result (Unit {0})) (s : Substrate) (rep : Report)
    → with_report r q ≡ (s, inr rep)
    → (q ≡ (s, ok tt)) × (r ≡ rep)
with_report-cases r (t, ok u) s rep e = (
  ap (λ (p : Substrate × (AppendError ⊎ Report)). (p.0, ok tt)) e,
  ap (λ (p : Substrate × (AppendError ⊎ Report)). elim p.1 [ inl _ ↦ r | inr y ↦ y ]) e,
)
with_report-cases r (t, err x) s rep e = absurd (ground arith)

module _ {M : Type 0} (canonical : M → Option Bytes) (hash : Bytes → Bytes) where
  abbrev pub report_on : Message M → Bytes → Report
  report_on msg payload = record {
    sum = hash payload;
    sum_hex = hash_hex (hash payload);
    message_type = msg.full_name;
  }

  ingest_append-encoded :
      (io : Io) (msg : Message M) (event_time at_time : ℤ) (s : Substrate) (payload : Bytes)
      → canonical msg.body ≡ some payload
      → ingest_append canonical hash io msg event_time at_time s
        ≡ with_report
            (report_on msg payload)
            (append_canonical hash io payload (hash payload) event_time msg.full_name at_time s)
  unfolding ingest_append marshal_and_hash
  ingest_append-encoded io msg event_time at_time s payload e =
      rw (ingest_append, marshal_and_hash, e) refl

  with_report-db :
      (r : Report) (q : Substrate × Result (Unit {0})) → (with_report r q).0.db ≡ q.0.db
  with_report-db r (t, ok u) = refl
  with_report-db r (t, err x) = refl

  -- When Append on a sound archive answers with a report, the message had canonical bytes and the
  -- report names their hash, in bytes and in hex, and the message's type; ReadBlob then answers for
  -- that name with bytes that hash to it; and appending the message again, at any time and whatever
  -- the system answers, leaves the database as it is.
  pub ingest_append-once :
      (io : Io) (msg : Message M) (event_time at_time : ℤ) (s s' : Substrate) (rep : Report)
      → IsSound hash s
      → ingest_append canonical hash io msg event_time at_time s ≡ (s', inr rep)
      → (payload : Bytes) × (canonical msg.body ≡ some payload)
        × (rep ≡ report_on msg payload)
        × ((held : Bytes) × (read_blob hash true (hash payload) s' ≡ ok held)
            × (hash held ≡ hash payload))
        × ((again : Io) (later later_at : ℤ)
            → (ingest_append canonical hash again msg later later_at s').0.db ≡ s'.db)
  unfolding ingest_append marshal_and_hash lookup_row
  ingest_append-once io msg event_time at_time s s' rep sound e =
      elim (Option-cases (canonical msg.body)) [
        | inl bad ↦ absurd (ground (arith, bad))
        | inr (payload, good) ↦
            let reached =
              sym (ingest_append-encoded io msg event_time at_time s payload good) ∙ e in
            let (committed, same) = with_report-cases (report_on msg payload) _ s' rep reached in
            let (x, there) =
              append_canonical-holds hash io payload (hash payload) event_time msg.full_name at_time
                s s' committed in
            let kept_sound : IsSound hash s' =
              rw (ap (λ (p : Substrate × Result (Unit {0})). p.0) committed) at (
                append_canonical-IsSound hash io payload (hash payload) event_time msg.full_name
                  at_time s sound) in
            (
              payload,
              good,
              sym same,
              read_blob-lookup_row hash (hash payload) s' x.row kept_sound (rw (there, lookup_row)),
              λ again later later_at.
                  rw (ingest_append-encoded again msg later later_at s' payload good) (
                    with_report-db (report_on msg payload) _
                    ∙ append_canonical-held hash again payload (hash payload) later msg.full_name
                        later_at s' x there),
            )
      ]

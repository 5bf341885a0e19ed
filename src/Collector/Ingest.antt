-- ===== src/Collector/Ingest.antt =====
-- services/collector/internal/ingest/ingest.go, behind the adapter substratearchive: the collector
-- that commits its records itself.
use ghost_trace.Prelude.{Option, none, some, ◌⊎◌, inl, inr, bytes_comparable}
use ghost_trace.Prelude.Int.{ℤ}
use ghost_trace.Canonical.{Bytes, hash_hex}
use ghost_trace.Substrate.{Error, Result, ok, err, Substrate, Io}
use ghost_trace.Substrate.Append.{append_canonical}
use ghost_trace.Stream.Archive.{Message, marshal_and_hash}

pub data AppendError : Type 0 where
  not_canonical : AppendError
  not_committed : Error → AppendError

pub record Report : Type 0 where
  pub sum : Bytes
  pub sum_hex : Bytes
  pub message_type : Bytes

abbrev pub with_report : Report → Substrate × Result (Unit {0}) → Substrate × (AppendError ⊎ Report)
with_report rep (s, ok _) = (s, inr rep)
with_report rep (s, err e) = (s, inl (not_committed e))

module _ {M : Type 0} (canonical : M → Option Bytes) (hash : Bytes → Bytes) where
  -- `committed_at` is the reading of the clock.
  unfoldable pub ingest_append :
      Io → Message M → ℤ → ℤ → Substrate → Substrate × (AppendError ⊎ Report)
  ingest_append io msg event_time committed_at s = elim (marshal_and_hash canonical hash msg.body) [
    | none ↦ (s, inl not_canonical)
    | some (payload, sum) ↦
        with_report (record { sum = sum; sum_hex = hash_hex sum; message_type = msg.full_name })
          (append_canonical hash io payload sum event_time msg.full_name committed_at s)
  ]

-- ===== src/Http/Browser.antt =====
-- services/collector/internal/api/api.go: the two endpoints of the browser. `json.Decode` of the
-- body is an argument; the limit of 1 MiB on it is the decoder's.
use ghost_trace.Prelude.{
  ℕ, ◌/◌, ◌^◌, Bool, String, List, [], ◌∷◌, Option, none, some, ◌⊎◌, inl, inr, ◌==◌,
  string_comparable, if◌then◌else◌,
}
use ghost_trace.Prelude.Int.{ℤ, pos}
use ghost_trace.Prelude.Float.{Float64}
use ghost_trace.Session.{Client, Store}
use ghost_trace.Tenant.{Registry, by_site_key}
use ghost_trace.Collector.{TelemetryEvent, TelemetryEnvelope}
use ghost_trace.Collector.Batch.{
  Outside, Effect, IngestError, session_not_found, ingest_failed, ingest_telemetry,
}
use ghost_trace.Collector.Start.{StartOutside, StartEffect, start_session}
use ghost_trace.Http.{Request, WriterCall, write_header}
use ghost_trace.Http.Auth.{bearer_token, Payload, result_body, write_json, write_error}

pub record SessionsRequest : Type 0 where
  pub site_key : String
  pub page_path : String
  pub pointer : String
  pub touch : Bool
  pub viewport : List ℤ
  pub tz_offset : ℤ
  pub reduced_motion : Bool

pub record CollectPolicy : Type 0 where
  pub pointer_hz : ℤ
  pub batch_ms : ℤ
  pub types : List String

pub record SessionsResponse : Type 0 where
  pub session_token : String
  pub expires_in : ℕ
  pub collect_policy : CollectPolicy

pub record WireBatch : Type 0 where
  pub session_token : String
  pub seq : ℕ
  pub sent_at_ms : ℕ
  pub page_path : String
  pub viewport : List ℤ
  pub events : List TelemetryEvent

-- A viewport is taken if it has two numbers, and is zero else.
abbrev pub viewport_of : List ℤ → ℤ × ℤ
viewport_of (w ∷ h ∷ []) = (w, h)
viewport_of _ = (pos 0, pos 0)

abbrev pub client_of : SessionsRequest → Client
client_of req = record {
  pointer_type = req.pointer;
  touch = req.touch;
  viewport = viewport_of req.viewport;
  tz_offset_min = req.tz_offset;
  reduced_motion = req.reduced_motion;
}

-- The header's token, or else the body's.
abbrev pub token_of : Request → WireBatch → String
token_of r b = if bearer_token r == "" then b.session_token else bearer_token r

abbrev pub envelope_of : Request → WireBatch → TelemetryEnvelope
envelope_of r b = record {
  session_token = token_of r b;
  seq = b.seq;
  sent_at_ms = b.sent_at_ms;
  page_path = b.page_path;
  viewport = viewport_of b.viewport;
  events = b.events;
}

module _ {F : Type 0} (fl : Float64 F) where
  -- `handleSessions`; the configured lifetime is in nanoseconds, and whole seconds are told.
  unfoldable pub handle_sessions :
      Registry
      → ℕ
      → CollectPolicy
      → StartOutside F
      → Option SessionsRequest
      → Store F
      → Store F × List (WriterCall (Payload SessionsResponse)) × List StartEffect
  handle_sessions tenants session_ttl collect o body s = elim body [
    | none ↦ (s, write_error 400 "malformed JSON body", [])
    | some req ↦ elim (by_site_key tenants req.site_key) [
      | none ↦ (s, write_error 401 "unknown site_key", [])
      | some who ↦
          let started = start_session fl o who.id req.page_path (client_of req) s in
          elim started.1 [
            | none ↦ (started.0, write_error 500 "could not create session", started.2)
            | some token ↦ (
              started.0,
              write_json 200 (
                  result_body (record {
                    session_token = token;
                    expires_in = session_ttl / 10 ^ 9;
                    collect_policy = collect;
                  })),
              started.2,
            )
          ]
    ]
  ]

module _ {F G : Type 0} (fl : Float64 F) (narrow : F → G) (widen : G → F) where
  abbrev pub answer_ingest : IngestError ⊎ Unit {0} → List (WriterCall (Payload (Unit {0})))
  answer_ingest (inl session_not_found) = write_header 202 ∷ []
  answer_ingest (inl ingest_failed) = write_error 500 "telemetry failed"
  answer_ingest (inr _) = write_header 202 ∷ []

  -- `handleTelemetry`
  unfoldable pub handle_telemetry :
      Outside F
      → Request
      → Option WireBatch
      → Store F
      → Store F × List (WriterCall (Payload (Unit {0}))) × List (Effect G)
  handle_telemetry o r body s = elim body [
    | none ↦ (s, write_error 400 "malformed JSON body", [])
    | some b ↦
        let done = ingest_telemetry fl narrow widen o (envelope_of r b) s in
        (done.0, answer_ingest done.1.0, done.1.1)
  ]

-- ===== src/Collector/Batch.antt =====
-- protomap.go's telemetry batch, and what IngestTelemetry does after the store's lock.
use ghost_trace.Prelude.{
  ℕ, Bool, ◌||◌, ltb, length, String, Option, none, some, List, [], ◌∷◌, ◌++◌, map, ◌==◌,
  string_comparable, if◌then◌else◌, ◌⊎◌, inl, inr,
}
use ghost_trace.Prelude.Int.{ℤ}
use ghost_trace.Prelude.Float.{Float64}
use ghost_trace.Features.{Point}
use ghost_trace.Session.{Store, with_token}
use ghost_trace.Decision.{Appended}
use ghost_trace.Snapshot.{SessionSnapshot, from_state}
use ghost_trace.Collector.{TelemetryEvent, TelemetryEnvelope, to_point, to_uint32, Copied, absorb}

-- An event of the batch: its own time with the fields of its kind.
pub data BatchEvent : Type 0 where
  pointer_event : ℕ → String → List Point → BatchEvent
  key_event : ℕ → String → String → String → BatchEvent
  scroll_event : ℕ → ℤ → String → BatchEvent
  focus_event : ℕ → String → String → BatchEvent
  visibility_event : ℕ → String → BatchEvent
  form_event : ℕ → String → String → BatchEvent

pub record TelemetryBatch : Type 0 where
  pub tenant_id : String
  pub session_id : String
  pub seq : ℕ
  pub sent_at_ms : ℕ
  pub page_path : String
  pub viewport_w : ℕ
  pub viewport_h : ℕ
  pub received_at : ℕ
  pub pointer_events : List BatchEvent
  pub key_events : List BatchEvent
  pub scroll_events : List BatchEvent
  pub focus_events : List BatchEvent
  pub visibility_events : List BatchEvent
  pub form_events : List BatchEvent

unfoldable pub append_event : TelemetryEvent → TelemetryBatch → TelemetryBatch
append_event ev b =
    if ev.type == "pointer"
    then record b {
      pointer_events = b.pointer_events ++ (pointer_event ev.t ev.src (map to_point ev.pts) ∷ []);
    }
    else if ev.type == "key"
    then record b {
      key_events = b.key_events ++ (key_event ev.t ev.phase ev.key_class ev.target ∷ []);
    }
    else if ev.type == "scroll"
    then record b { scroll_events = b.scroll_events ++ (scroll_event ev.t ev.dy ev.mode ∷ []) }
    else if ev.type == "focus"
    then record b { focus_events = b.focus_events ++ (focus_event ev.t ev.state ev.target ∷ []) }
    else if ev.type == "visibility"
    then record b {
      visibility_events = b.visibility_events ++ (visibility_event ev.t ev.state ∷ []);
    }
    else if ev.type == "form"
    then record b { form_events = b.form_events ++ (form_event ev.t ev.target ev.action ∷ []) }
    else b

unfoldable pub append_events : List TelemetryEvent → TelemetryBatch → TelemetryBatch
append_events [] b = b
append_events (ev ∷ evs) b = append_events evs (append_event ev b)

unfoldable pub build_telemetry_batch : TelemetryEnvelope → String → String → ℕ → TelemetryBatch
build_telemetry_batch env tenant_id session_id received_at = append_events env.events (record {
  tenant_id = tenant_id;
  session_id = session_id;
  seq = env.seq;
  sent_at_ms = env.sent_at_ms;
  page_path = env.page_path;
  viewport_w = to_uint32 env.viewport.0;
  viewport_h = to_uint32 env.viewport.1;
  received_at = received_at;
  pointer_events = [];
  key_events = [];
  scroll_events = [];
  focus_events = [];
  visibility_events = [];
  form_events = [];
})

unfoldable pub batch_has_events : TelemetryBatch → Bool
batch_has_events b =
    ltb 0 (length b.pointer_events)
    || ltb 0 (length b.key_events)
    || ltb 0 (length b.scroll_events)
    || ltb 0 (length b.focus_events)
    || ltb 0 (length b.visibility_events)
    || ltb 0 (length b.form_events)

pub data DropReason : Type 0 where
  late : DropReason
  failed : DropReason
  shed : DropReason

pub data Kind : Type 0 where
  telemetry : Kind
  snapshot : Kind

-- What the call does to the outside, in order.
pub data Effect (G : Type 0) : Type 0 where
  put_snapshot : String → SessionSnapshot G → Effect G
  append_batch : TelemetryBatch → Effect G
  count_written : Kind → Effect G
  count_dropped : Kind → DropReason → Effect G

-- `ingest_failed` is any other error of the store's With, which the store never has.
pub data IngestError : Type 0 where
  session_not_found : IngestError
  ingest_failed : IngestError

-- The count that an answer calls for; a store that is not configured loses nothing.
abbrev pub count_of : {G : Type 0} → Kind → Appended → List (Effect G)
count_of kind Appended.written = count_written kind ∷ []
count_of kind Appended.unavailable = []
count_of kind Appended.deadline = count_dropped kind late ∷ []
count_of kind Appended.refused = count_dropped kind failed ∷ []

-- What the call meets outside.
pub record Outside (F : Type 0) : Type 0 where
  pub now : ℕ
  pub written_at : ℕ
  pub received_at : ℕ
  pub put_answer : Appended
  pub pressure : F
  pub append_answer : Appended

module _ {F G : Type 0} (fl : Float64 F) (narrow : F → G) (widen : G → F) where
  -- `archiveBestEffort`: shed at high pressure, else appended and counted.
  unfoldable pub archive_batch : Outside F → TelemetryBatch → List (Effect G)
  archive_batch o b =
      if fl.le (fl.literal 8 10) o.pressure
      then count_dropped telemetry shed ∷ []
      else append_batch b ∷ count_of telemetry o.append_answer

  abbrev pub snapshot_of : Outside F → Copied fl → SessionSnapshot G
  snapshot_of o c = record {
    tenant_id = c.tenant_id;
    session_id = c.session_id;
    last_event_ms = c.snapshot_ms;
    written_at = o.written_at;
    features = some (from_state narrow widen c.snapshot_state);
  }

  unfoldable pub publish :
      Outside F
      → TelemetryEnvelope
      → Option (Copied fl)
      → (IngestError ⊎ Unit {0}) × List (Effect G)
  publish o env none = (inl session_not_found, [])
  publish o env (some c) = (
    inr tt,
    put_snapshot env.session_token (snapshot_of o c) ∷ count_of snapshot o.put_answer
        ++ (if batch_has_events batch then archive_batch o batch else []),
  )
    where
      batch : TelemetryBatch
      batch = build_telemetry_batch env c.tenant_id c.session_id o.received_at

  unfoldable pub ingest_telemetry :
      Outside F
      → TelemetryEnvelope
      → Store F
      → Store F × ((IngestError ⊎ Unit {0}) × List (Effect G))
  ingest_telemetry o env s = (
    (with_token env.session_token (absorb fl env) o.now s).0,
    publish o env (with_token env.session_token (absorb fl env) o.now s).1,
  )

-- ===== src/Collector.antt =====
-- The collector's IngestTelemetry: services/collector/internal/app (ingest_telemetry.go,
-- protomap.go, and archiveBestEffort of app.go). What the snapshot store, the archive and its
-- pressure gauge answer, and the readings of the clock, are arguments of the call.
use ghost_trace.Prelude.{
  ℕ, ◌+◌, ◌-◌, ◌%◌, Bool, true, false, ◌||◌, ltb, length, String, Option, none, some, List, [], ◌∷◌,
  ◌++◌, map, ◌==◌, string_comparable, if◌then◌else◌, ◌⊎◌, inl, inr,
}
use ghost_trace.Prelude.Int.{ℤ, pos, negsuc}
use ghost_trace.Prelude.Float.{Float64}
use ghost_trace.Features.{Point}
use ghost_trace.Features.Segments.{add, pointer_state}
use ghost_trace.Features.Timing.{add_key, keystroke_state}
use ghost_trace.Features.Counters.{
  add_scroll, add_focus, add_visibility, add_form, interaction_state,
}
use ghost_trace.Policy as Pol
use ghost_trace.Session.{State, Store, with_token, observe_batch, observe_event_time}
use ghost_trace.Decision.{Appended}
use ghost_trace.Snapshot.{SessionSnapshot, from_state}
pub mod Batch
pub mod Start
pub mod Ingest
pub mod Ingested
pub mod Pressure
pub mod Readings
mod Agreement
mod Tests
mod PressureTests
mod IngestTests

-- `uint32(v)` of a signed integer.
abbrev pub to_uint32 : ℤ → ℕ
to_uint32 (pos n) = n % 4294967296
to_uint32 (negsuc n) = 4294967295 - n % 4294967296

pub record TelemetryEvent : Type 0 where
  pub type : String
  pub t : ℕ
  pub src : String
  pub pts : List (ℤ × ℤ × ℤ)
  pub phase : String
  pub key_class : String
  pub target : String
  pub dy : ℤ
  pub mode : String
  pub state : String
  pub action : String

pub record TelemetryEnvelope : Type 0 where
  pub session_token : String
  pub seq : ℕ
  pub sent_at_ms : ℕ
  pub page_path : String
  pub viewport : ℤ × ℤ
  pub events : List TelemetryEvent

abbrev pub to_point : ℤ × ℤ × ℤ → Point
to_point p = record { x = p.0; y = p.1; dt_ms = to_uint32 p.2 }

module _ {F : Type 0} (fl : Float64 F) where
  -- The switch on an event's type.
  unfoldable pub dispatch : TelemetryEvent → State F → State F
  dispatch ev st =
      if ev.type == "pointer"
      then record st { pointer = add fl ev.t (map to_point ev.pts) st.pointer }
      else if ev.type == "key"
      then record st {
        keystroke =
            add_key fl
              (record { t_ms = ev.t; phase = ev.phase; class = ev.key_class; target = ev.target })
              st.keystroke;
      }
      else if ev.type == "scroll"
      then record st { interaction = add_scroll ev.mode st.interaction }
      else if ev.type == "focus"
      then record st { interaction = add_focus ev.target st.interaction }
      else if ev.type == "visibility"
      then record st { interaction = add_visibility ev.state st.interaction }
      else if ev.type == "form"
      then record st { interaction = add_form ev.action ev.target st.interaction }
      else st

  unfoldable pub observe_events : List TelemetryEvent → State F → State F
  observe_events [] st = st
  observe_events (ev ∷ evs) st = observe_events evs (dispatch ev (observe_event_time ev.t st))

  unfoldable pub observe_envelope : TelemetryEnvelope → State F → State F
  observe_envelope env st = observe_events env.events (observe_batch env.seq env.sent_at_ms st)

  -- What the callback copies out for use after the lock is released.
  pub record Copied : Type 0 where
    pub tenant_id : String
    pub session_id : String
    pub snapshot_state : Pol.State F
    pub snapshot_ms : ℕ

  abbrev pub copy_out : State F → Copied
  copy_out st = record {
    tenant_id = st.tenant_id;
    session_id = st.id;
    snapshot_state = record {
      pointer = pointer_state fl st.pointer;
      keystroke = keystroke_state fl st.keystroke;
      interaction = interaction_state fl st.interaction;
    };
    snapshot_ms = st.last_event_ms;
  }

  unfoldable pub absorb : TelemetryEnvelope → State F → State F × Copied
  absorb env st = (observe_envelope env st, copy_out (observe_envelope env st))

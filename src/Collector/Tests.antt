-- ===== src/Collector/Tests.antt =====
-- One envelope for a session that is live and one for a token that nobody has.
use ghost_trace.Prelude.{ℕ, ◌*◌, ◌/◌, ◌≡◌, refl, true, false, some, [], ◌∷◌, inr}
use ghost_trace.Prelude.Int.{pos}
use ghost_trace.Prelude.Dict.{lookup}
use ghost_trace.Prelude.FixedPoint.{fixed_point}
use ghost_trace.Session.{Client, Store, Entry, new_state}
use ghost_trace.Decision.{Session, Appended, live_lookup}
use ghost_trace.Snapshot.{snapshot_lookup}
use ghost_trace.Collector.{TelemetryEvent, TelemetryEnvelope}
use ghost_trace.Collector.Batch.{Outside, ingest_telemetry}
use ghost_trace.Collector.Agreement.{offered, IsRounded, ingest_telemetry-agreement}

abbrev pub to_tenths : ℕ → ℕ
to_tenths v = v / 100

abbrev pub of_tenths : ℕ → ℕ
of_tenths t = t * 100

abbrev pub phone : Client
phone = record {
  pointer_type = "touch";
  touch = true;
  viewport = (pos 390, pos 844);
  tz_offset_min = pos 180;
  reduced_motion = false;
}

abbrev entry : Entry ℕ
entry = record { state = new_state fixed_point "s_7" "acme" "/signup" phone 5; expires_at = 105 }

abbrev store : Store ℕ
store = record { by_token = ("st_7", entry) ∷ []; ttl = 100 }

abbrev key_event : TelemetryEvent
key_event = record {
  type = "key";
  t = 400;
  src = "";
  pts = [];
  phase = "down";
  key_class = "letter";
  target = "email";
  dy = pos 0;
  mode = "";
  state = "";
  action = "";
}

abbrev pub envelope : TelemetryEnvelope
envelope = record {
  session_token = "st_7";
  seq = 1;
  sent_at_ms = 500;
  page_path = "/signup";
  viewport = (pos 390, pos 844);
  events = key_event ∷ record key_event { type = "focus" } ∷ [];
}

abbrev pub outside : Outside ℕ
outside = record {
  now = 50;
  written_at = 51;
  received_at = 52;
  put_answer = Appended.written;
  pressure = 100;
  append_answer = Appended.deadline;
}

ingest_telemetry-agreement_example :
    ((ingest_telemetry fixed_point to_tenths of_tenths outside envelope store).1.0 ≡ inr tt)
    × ((mine : Session ℕ) × (seen : Session ℕ) × ((live_lookup fixed_point "acme" "st_7" 50
            (ingest_telemetry fixed_point to_tenths of_tenths outside envelope store).0).1
          ≡ (mine, true))
        × (snapshot_lookup to_tenths of_tenths fixed_point (
              offered fixed_point to_tenths of_tenths "acme" "st_7"
                (ingest_telemetry fixed_point to_tenths of_tenths outside envelope store).1.1)
            ≡ some (seen, true))
        × IsRounded fixed_point to_tenths of_tenths mine seen)
unfolding lookup
ingest_telemetry-agreement_example =
    ingest_telemetry-agreement fixed_point to_tenths of_tenths outside envelope store entry refl
      refl

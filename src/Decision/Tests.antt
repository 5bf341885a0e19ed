-- ===== src/Decision/Tests.antt =====
-- Decisions over a live store with one session, in fixed-point numbers.
use ghost_trace.Prelude.{
  ℕ, ◌≡◌, ◌≢◌, refl, arith, Bool, false, [], ◌∷◌, Option, none, some, String, string_comparable,
}
use ghost_trace.Prelude.Int.{pos}
use ghost_trace.Prelude.Dict.{lookup}
use ghost_trace.Prelude.FixedPoint.{fixed_point}
use ghost_trace.Policy.{Calibration, Decision}
use ghost_trace.Session.{Client, Store, Entry, new_state}
use ghost_trace.Decision.{Session, Input, Output, Appended, no_session, decide}
use ghost_trace.Decision.Recording.{OutcomeInput, OutcomeRecord}
use ghost_trace.Decision.Tenancy.{live_port, decide-foreign}
use ghost_trace.Decision.BestEffort.{losses, decide-best_effort}

abbrev desktop : Client
desktop = record {
  pointer_type = "mouse";
  touch = false;
  viewport = (pos 1280, pos 720);
  tz_offset_min = pos 0;
  reduced_motion = false;
}

abbrev acme_entry : Entry ℕ
acme_entry = record {
  state = new_state fixed_point "s_1" "acme" "/login" desktop 5;
  expires_at = 105;
}

abbrev one_session : Store ℕ
one_session = record { by_token = ("st_1", acme_entry) ∷ []; ttl = 100 }

-- A calibration whose floors and scores are all zero: one channel is enough to block.
abbrev pub eager : Calibration ℕ
eager = record {
  straightness_floor = 900;
  straightness_ceil = 995;
  flight_cv_floor = 450;
  flight_cv_ceil = 120;
  dwell_absent_ms = 12000;
  identical_interval_ratio = 250;
  confidence_segments = 6000;
  confidence_path_px = 1500000;
  confidence_intervals = 20000;
  min_confidence_to_challenge = 0;
  min_confidence_to_block = 0;
  score_to_challenge = 0;
  score_to_block = 0;
  min_channels_to_block = 1;
}

abbrev pub from_globex : Input
from_globex = record {
  tenant_id = "globex";
  session_token = "st_1";
  action = "login";
  subject_id = "u_1";
}

abbrev mode : String
mode = "enforce"

foreign : acme_entry.state.tenant_id ≢ from_globex.tenant_id
foreign =
    ground (arith, string_comparable.same_iff acme_entry.state.tenant_id from_globex.tenant_id)

decide-foreign_example :
    decide fixed_point eager mode
      (live_port fixed_point 50 one_session)
      (some "ev_1")
      Appended.written
      from_globex
    ≡ decide fixed_point eager mode
        (live_port fixed_point 50 one_session)
        (some "ev_1")
        Appended.written
        (record from_globex { session_token = "st_none" })
unfolding lookup
decide-foreign_example =
    decide-foreign fixed_point eager mode (some "ev_1") Appended.written from_globex "st_none" 50
      one_session acme_entry refl foreign refl

abbrev pub no_port : String → String → Option (Session ℕ × Bool)
no_port tenant_id token = some (no_session fixed_point, false)

decide-best_effort_example :
    ((decide fixed_point eager mode no_port (some "ev_1") Appended.written from_globex).0
      ≡ (decide fixed_point eager mode no_port (some "ev_1") Appended.deadline from_globex).0)
    × ((decide fixed_point eager mode no_port (some "ev_1") Appended.written from_globex).1
        ≡ losses fixed_point eager
            (decide fixed_point eager mode no_port (some "ev_1") Appended.written from_globex).0
            Appended.written)
decide-best_effort_example =
    decide-best_effort fixed_point eager mode no_port (some "ev_1") Appended.written
      Appended.deadline from_globex

abbrev challenged : Output ℕ
challenged = record {
  evaluation_id = "ev_1";
  decision = Decision.challenge;
  shadow_decision = none;
  score = 0;
  confidence = 0;
  reasons = [];
  evidence_events = 0;
  evidence_ms = 0;
  mode = "enforce";
}

abbrev solved : OutcomeInput
solved = record {
  tenant_id = "acme";
  evaluation_id = "ev_1";
  outcome = "challenge_passed";
  observed_at = none;
}

abbrev durable_archive : OutcomeRecord → Appended
durable_archive rec = Appended.written

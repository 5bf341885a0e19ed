-- ===== src/Policy/Tests.antt =====
-- The shipped calibration, in fixed-point numbers, on a scripted session and an empty one.
use ghost_trace.Prelude.{ℕ, ◌≤◌, ◌≡◌, ◌≢◌, refl, All, arith, none, some}
use ghost_trace.Prelude.FixedPoint.{fixed_point}
use ghost_trace.Features.{PointerState, KeystrokeState, InteractionState}
use ghost_trace.Policy.{Calibration, State, Decision, weights_for, clamp01, ramp, max_of, max_from}
use ghost_trace.Policy.Channels.{
  pointer_channel, keystroke_channel, interaction_channel, reason_if, injected_score, scroll_score,
  no_focus_score, interaction_confidence, dwell_absence, identical_intervals,
}
use ghost_trace.Policy.Judge.{
  judge, apply, enforced, Outcome, conclude, sum_channels, add_channel, sort_reasons, insert_reason,
  evidence_reasons, mode_monitor, mode_enforce,
}
use ghost_trace.Policy.Bounds.{IsUnit, heard, judge-IsUnit}
use ghost_trace.Policy.Restraint.{verdict, apply-cold_start, apply-uncorroborated}
use ghost_trace.Policy.Reasons.{IsRanked, IsJustified, judge-IsJustified}

abbrev shipped : Calibration ℕ
shipped = record {
  straightness_floor = 900;
  straightness_ceil = 995;
  flight_cv_floor = 450;
  flight_cv_ceil = 120;
  dwell_absent_ms = 12000;
  identical_interval_ratio = 250;
  confidence_segments = 6000;
  confidence_path_px = 1500000;
  confidence_intervals = 20000;
  min_confidence_to_challenge = 400;
  min_confidence_to_block = 700;
  score_to_challenge = 500;
  score_to_block = 800;
  min_channels_to_block = 2;
}

abbrev no_page : InteractionState ℕ
no_page = record {
  programmatic_scroll_ratio = 0;
  scroll_events = 0;
  focus_transitions = 0;
  distinct_focus_targets = 0;
  hidden_periods = 0;
  pastes = 0;
  autofills = 0;
  injections = 0;
  injected_fields = 0;
}

abbrev no_keys : KeystrokeState ℕ
no_keys = record {
  flight_cv = 0;
  dwell_cv = 0;
  mean_dwell_ms = 0;
  exact_repeat_ratio = 0;
  intervals = 0;
  keys = 0;
}

abbrev no_path : PointerState ℕ
no_path = record { straightness = 0; segments = 0; path_px = 0; points = 0 }

abbrev silent_state : State ℕ
silent_state = record { pointer = no_path; keystroke = no_keys; interaction = no_page }

-- A script that fills two fields and jumps along straight lines.
abbrev scripted : State ℕ
scripted = record {
  pointer = record { straightness = 1000; segments = 8; path_px = 2000000; points = 80 };
  keystroke = no_keys;
  interaction = record no_page { injections = 2; injected_fields = 2 };
}

abbrev path_only : State ℕ
path_only = record scripted { interaction = no_page }

abbrev blocked_in_shadow : Outcome
blocked_in_shadow = record { decision = Decision.allow; shadow = some Decision.block }

abbrev challenged : Outcome
challenged = record { decision = Decision.challenge; shadow = none }

abbrev allowed : Outcome
allowed = record { decision = Decision.allow; shadow = some Decision.allow }

apply-cold_start_example :
    (allowed.decision ≡ Decision.allow) × (verdict fixed_point shipped allowed ≡ Decision.allow)
unfolding judge conclude sum_channels add_channel pointer_channel weights_for keystroke_channel
    interaction_channel clamp01 ramp reason_if max_of max_from injected_score scroll_score
    no_focus_score interaction_confidence dwell_absence identical_intervals sort_reasons
    insert_reason evidence_reasons apply enforced
apply-cold_start_example =
    apply-cold_start fixed_point shipped silent_state "login" mode_monitor allowed refl refl refl

apply-uncorroborated_example :
    (challenged.decision ≢ Decision.block)
    × (verdict fixed_point shipped challenged ≢ Decision.block)
unfolding judge conclude sum_channels add_channel pointer_channel weights_for keystroke_channel
    interaction_channel clamp01 ramp reason_if max_of max_from injected_score scroll_score
    no_focus_score interaction_confidence dwell_absence identical_intervals sort_reasons
    insert_reason evidence_reasons apply enforced
apply-uncorroborated_example =
    apply-uncorroborated fixed_point shipped path_only "login" mode_enforce challenged (omega arith)
      refl

judge-IsUnit_example :
    IsUnit fixed_point (judge fixed_point shipped scripted "login").score
    × IsUnit fixed_point (judge fixed_point shipped scripted "login").confidence
    × ((judge fixed_point shipped scripted "login").contributing
        ≤ heard fixed_point shipped scripted)
    × (heard fixed_point shipped scripted ≤ 3)
judge-IsUnit_example = judge-IsUnit fixed_point shipped scripted "login"

judge-IsJustified_example :
    IsRanked fixed_point (judge fixed_point shipped scripted "login").reasons
    × All
        (IsJustified fixed_point shipped scripted
          (judge fixed_point shipped scripted "login").confidence)
        (judge fixed_point shipped scripted "login").reasons
judge-IsJustified_example = judge-IsJustified fixed_point shipped scripted "login"

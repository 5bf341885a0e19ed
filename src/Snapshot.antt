-- ===== src/Snapshot.antt =====
-- libs/snapshot/snapshot.go and the decision engine's session port over it,
-- services/decision-engine/internal/snapshotsessions. `narrow` and `widen` are Go's conversions of
-- a float64 to a float32 and back.
use ghost_trace.Prelude.{ℕ, Bool, true, false, String, Option, none, some, ◌⊎◌, inl, inr, ◌≡◌}
use ghost_trace.Prelude.Float.{Float64}
use ghost_trace.Features.{PointerState, KeystrokeState, InteractionState}
use ghost_trace.Policy.{State}
use ghost_trace.Decision.{Session, no_session}
mod RoundTrip

pub record FeatureState (G : Type 0) : Type 0 where
  pub pointer_straightness : G
  pub pointer_segments : ℕ
  pub pointer_path_px : G
  pub pointer_points : ℕ
  pub key_flight_cv : G
  pub key_dwell_cv : G
  pub key_mean_dwell_ms : G
  pub key_exact_repeat_ratio : G
  pub key_intervals : ℕ
  pub programmatic_scroll_ratio : G
  pub scroll_events : ℕ
  pub focus_transitions : ℕ
  pub hidden_periods : ℕ
  pub pastes : ℕ
  pub injections : ℕ
  pub injected_fields : ℕ
  pub autofills : ℕ
  pub distinct_focus_targets : ℕ
  pub key_events : ℕ

pub record SessionSnapshot (G : Type 0) : Type 0 where
  pub tenant_id : String
  pub session_id : String
  pub last_event_ms : ℕ
  pub written_at : ℕ
  pub features : Option (FeatureState G)

-- What the bucket answers to a Get: the snapshot, no snapshot, or an error of the store.
pub data Got (G : Type 0) : Type 0 where
  snapshot : SessionSnapshot G → Got G
  no_snapshot : Got G
  store_error : Got G

module _ {F G : Type 0} (narrow : F → G) (widen : G → F) where
  unfoldable pub from_state : State F → FeatureState G
  from_state st = record {
    pointer_straightness = narrow st.pointer.straightness;
    pointer_segments = st.pointer.segments;
    pointer_path_px = narrow st.pointer.path_px;
    pointer_points = st.pointer.points;
    key_flight_cv = narrow st.keystroke.flight_cv;
    key_dwell_cv = narrow st.keystroke.dwell_cv;
    key_mean_dwell_ms = narrow st.keystroke.mean_dwell_ms;
    key_exact_repeat_ratio = narrow st.keystroke.exact_repeat_ratio;
    key_intervals = st.keystroke.intervals;
    programmatic_scroll_ratio = narrow st.interaction.programmatic_scroll_ratio;
    scroll_events = st.interaction.scroll_events;
    focus_transitions = st.interaction.focus_transitions;
    hidden_periods = st.interaction.hidden_periods;
    pastes = st.interaction.pastes;
    injections = st.interaction.injections;
    injected_fields = st.interaction.injected_fields;
    autofills = st.interaction.autofills;
    distinct_focus_targets = st.interaction.distinct_focus_targets;
    key_events = st.keystroke.keys;
  }

  unfoldable pub to_state_of : FeatureState G → State F
  to_state_of fs = record {
    pointer = record {
      straightness = widen fs.pointer_straightness;
      segments = fs.pointer_segments;
      path_px = widen fs.pointer_path_px;
      points = fs.pointer_points;
    };
    keystroke = record {
      flight_cv = widen fs.key_flight_cv;
      dwell_cv = widen fs.key_dwell_cv;
      mean_dwell_ms = widen fs.key_mean_dwell_ms;
      exact_repeat_ratio = widen fs.key_exact_repeat_ratio;
      intervals = fs.key_intervals;
      keys = fs.key_events;
    };
    interaction = record {
      programmatic_scroll_ratio = widen fs.programmatic_scroll_ratio;
      scroll_events = fs.scroll_events;
      focus_transitions = fs.focus_transitions;
      distinct_focus_targets = fs.distinct_focus_targets;
      hidden_periods = fs.hidden_periods;
      pastes = fs.pastes;
      autofills = fs.autofills;
      injections = fs.injections;
      injected_fields = fs.injected_fields;
    };
  }

  module _ (fl : Float64 F) where
    -- `ToState`; a missing FeatureState is the empty state.
    unfoldable pub to_state : Option (FeatureState G) → State F
    to_state none = (no_session fl).state
    to_state (some fs) = to_state_of fs

    unfoldable pub round_trip : State F → State F
    round_trip st = to_state (some (from_state st))

    -- The engine's `Lookup` on what the bucket answered: a miss is a cold start, an error is not.
    unfoldable pub snapshot_lookup : Got G → Option (Session F × Bool)
    snapshot_lookup no_snapshot = some (no_session fl, false)
    snapshot_lookup store_error = none
    snapshot_lookup (snapshot snap) = some (
      record {
        id = snap.session_id;
        tenant_id = snap.tenant_id;
        state = to_state snap.features;
        last_event_ms = snap.last_event_ms;
      },
      true,
    )

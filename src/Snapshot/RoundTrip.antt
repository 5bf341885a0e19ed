-- ===== src/Snapshot/RoundTrip.antt =====
-- What a published snapshot keeps of a session's evidence.
use ghost_trace.Prelude.{◌≡◌, refl}
use ghost_trace.Prelude.Float.{Float64}
use ghost_trace.Policy.{Calibration, State}
use ghost_trace.Policy.Bounds.{heard}
use ghost_trace.Snapshot.{from_state, to_state_of, to_state, round_trip}

module _ {F G : Type 0} (narrow : F → G) (widen : G → F) (fl : Float64 F) where
  -- Where a float32 survives the conversion to float64 and back: a state that went through a
  -- snapshot once is not changed by going through one again, it is published as the same
  -- snapshot, and as many channels count as having seen something as before.
  pub round_trip-stable :
      (cal : Calibration F) (st : State F)
      → ((x : G) → narrow (widen x) ≡ x)
      → (round_trip narrow widen fl (round_trip narrow widen fl st) ≡ round_trip narrow widen fl st)
        × (from_state narrow widen (round_trip narrow widen fl st) ≡ from_state narrow widen st)
        × (heard fl cal (round_trip narrow widen fl st) ≡ heard fl cal st)
  unfolding round_trip to_state to_state_of from_state
  round_trip-stable cal st exact = (
    simp (
      exact (narrow st.pointer.straightness),
      exact (narrow st.pointer.path_px),
      exact (narrow st.keystroke.flight_cv),
      exact (narrow st.keystroke.dwell_cv),
      exact (narrow st.keystroke.mean_dwell_ms),
      exact (narrow st.keystroke.exact_repeat_ratio),
      exact (narrow st.interaction.programmatic_scroll_ratio),
    ),
    simp (
      exact (narrow st.pointer.straightness),
      exact (narrow st.pointer.path_px),
      exact (narrow st.keystroke.flight_cv),
      exact (narrow st.keystroke.dwell_cv),
      exact (narrow st.keystroke.mean_dwell_ms),
      exact (narrow st.keystroke.exact_repeat_ratio),
      exact (narrow st.interaction.programmatic_scroll_ratio),
    ),
    refl,
  )

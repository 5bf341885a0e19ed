-- ===== src/Policy/Channels.antt =====
-- `pointerChannel`, `keystrokeChannel` and `interactionChannel`.
use ghost_trace.Prelude.{List, [], ◌∷◌, ◌++◌, Bool, ◌&&◌, ltb, eqb, if◌then◌else◌}
use ghost_trace.Prelude.Int.{pos}
use ghost_trace.Prelude.Float.{Float64}
use ghost_trace.Features.{PointerState, KeystrokeState, InteractionState}
use ghost_trace.Policy.{Calibration, ReasonCode, Reason, Channel, clamp01, ramp, max_of}

module _ {F : Type 0} (fl : Float64 F) (cal : Calibration F) where
  abbrev pub silent : F → Channel F
  silent weight = record {
    score = fl.literal 0 1;
    confidence = fl.literal 0 1;
    weight = weight;
    reasons = [];
  }

  -- A reason that is given when the test holds.
  unfoldable pub reason_if : Bool → ReasonCode → F → List (Reason F)
  reason_if b code weight = if b then record { code = code; weight = weight } ∷ [] else []

  unfoldable pub pointer_channel : PointerState F → F → Channel F
  pointer_channel st weight = if eqb st.segments 0 then silent weight else record {
    score = score;
    confidence = clamp01 fl (
        fl.add
          (fl.mul (fl.literal 1 2)
            (clamp01 fl (fl.div (fl.of_int (pos st.segments)) cal.confidence_segments)))
          (fl.mul (fl.literal 1 2) (clamp01 fl (fl.div st.path_px cal.confidence_path_px))));
    weight = weight;
    reasons = reason_if (fl.lt (fl.literal 0 1) score) ReasonCode.pointer_linearity score;
  }
    where
      score : F
      score = ramp fl st.straightness cal.straightness_floor cal.straightness_ceil

  -- How far below the threshold the mean dwell time is.
  unfoldable pub dwell_absence : KeystrokeState F → F
  dwell_absence st =
      if fl.lt (fl.literal 0 1) st.mean_dwell_ms && fl.lt st.mean_dwell_ms cal.dwell_absent_ms
      then fl.sub (fl.literal 1 1) (fl.div st.mean_dwell_ms cal.dwell_absent_ms)
      else fl.literal 0 1

  unfoldable pub identical_intervals : KeystrokeState F → F
  identical_intervals st =
      if fl.lt (fl.literal 0 1) st.exact_repeat_ratio
      then clamp01 fl (fl.div st.exact_repeat_ratio cal.identical_interval_ratio)
      else fl.literal 0 1

  unfoldable pub keystroke_channel : KeystrokeState F → F → Channel F
  keystroke_channel st weight = if eqb st.intervals 0 then silent weight else record {
    score = max_of fl (rhythm ∷ dwell_absence st ∷ identical_intervals st ∷ []);
    confidence = clamp01 fl (fl.div (fl.of_int (pos st.intervals)) cal.confidence_intervals);
    weight = weight;
    reasons =
        reason_if (fl.lt (fl.literal 0 1) rhythm) ReasonCode.key_interval_variance_low rhythm
        ++ reason_if
            (fl.lt (fl.literal 0 1) st.mean_dwell_ms && fl.lt st.mean_dwell_ms cal.dwell_absent_ms)
            ReasonCode.key_dwell_absent (dwell_absence st)
        ++ reason_if (fl.lt (fl.literal 0 1) st.exact_repeat_ratio)
            ReasonCode.key_intervals_identical (identical_intervals st);
  }
    where
      rhythm : F
      rhythm = ramp fl st.flight_cv cal.flight_cv_floor cal.flight_cv_ceil

  unfoldable pub injected_score : InteractionState F → F
  injected_score st =
      if ltb 0 st.injections
      then clamp01 fl (
          fl.add (fl.literal 55 100)
            (fl.mul (fl.literal 25 100) (fl.of_int (pos st.injected_fields))))
      else fl.literal 0 1

  unfoldable pub scroll_score : InteractionState F → F
  scroll_score st =
      if fl.lt (fl.literal 0 1) st.programmatic_scroll_ratio
      then clamp01 fl (fl.mul st.programmatic_scroll_ratio (fl.literal 2 1))
      else fl.literal 0 1

  unfoldable pub no_focus_score : InteractionState F → F
  no_focus_score st = if eqb st.focus_transitions 0 then fl.literal 60 100 else fl.literal 0 1

  -- Confidence is 1 when a conclusive sign was seen, and grows with the volume otherwise.
  unfoldable pub interaction_confidence : InteractionState F → F
  interaction_confidence st =
      if fl.eq seen (fl.literal 0 1)
      then clamp01 fl (
          fl.add (fl.div (fl.of_int (pos st.focus_transitions)) (fl.literal 6 1))
            (fl.div (fl.of_int (pos st.scroll_events)) (fl.literal 20 1)))
      else seen
    where
      seen : F
      seen =
          if fl.lt (fl.literal 0 1) st.programmatic_scroll_ratio
          then fl.literal 1 1
          else if ltb 0 st.injections
          then fl.literal 1 1
          else fl.literal 0 1

  unfoldable pub interaction_channel : InteractionState F → F → Channel F
  interaction_channel st weight =
      if eqb st.focus_transitions 0
        && eqb st.scroll_events 0
        && eqb st.pastes 0
        && eqb st.injections 0
      then silent weight
      else record {
        score = max_of fl (scroll_score st ∷ no_focus_score st ∷ injected_score st ∷ []);
        confidence = interaction_confidence st;
        weight = weight;
        reasons =
            reason_if (ltb 0 st.injections) ReasonCode.value_injected (injected_score st)
            ++ reason_if (fl.lt (fl.literal 0 1) st.programmatic_scroll_ratio)
                ReasonCode.programmatic_scroll (scroll_score st)
            ++ reason_if (eqb st.focus_transitions 0) ReasonCode.no_focus_transitions
                (no_focus_score st);
      }

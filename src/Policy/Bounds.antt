-- ===== src/Policy/Bounds.antt =====
-- The ranges of what `Judge` reports.
use ghost_trace.Prelude.{ℕ, ◌+◌, ◌≤◌, ◌≡◌, true, false, arith, String, eqb, if◌then◌else◌, ◌&&◌}
use ghost_trace.Prelude.Float.{Float64}
use ghost_trace.Policy.{Calibration, State, clamp01}
use ghost_trace.Policy.Channels.{pointer_channel, keystroke_channel, interaction_channel}
use ghost_trace.Policy.Judge.{Sums, add_channel, sum_channels, conclude, judge}

module _ {F : Type 0} (fl : Float64 F) where
  pub lt_asym : (a b : F) → fl.lt a b ≡ true → fl.lt b a ≡ false
  lt_asym a b h = ground (arith, fl.lt_not_le a b, fl.lt_le b a)

  -- Neither below 0 nor above 1.
  abbrev pub IsUnit : F → Type 0
  IsUnit v = (fl.lt v (fl.literal 0 1) ≡ false) × (fl.lt (fl.literal 1 1) v ≡ false)

  zero-IsUnit : IsUnit (fl.literal 0 1)
  zero-IsUnit = ground (
    arith,
    fl.zero_lt_one,
    lt_asym (fl.literal 0 1) (fl.literal 1 1),
    lt_asym (fl.literal 0 1) (fl.literal 0 1),
  )

  pub clamp01-IsUnit : (v : F) → IsUnit (clamp01 fl v)
  unfolding clamp01
  clamp01-IsUnit v = ground (
    arith,
    zero-IsUnit,
    fl.zero_lt_one,
    lt_asym (fl.literal 0 1) (fl.literal 1 1),
    lt_asym (fl.literal 1 1) (fl.literal 1 1),
  )

  module _ (cal : Calibration F) where
    -- The channels that have seen something.
    abbrev pub heard : State F → ℕ
    heard st =
        (if eqb st.pointer.segments 0 then 0 else 1)
        + (if eqb st.keystroke.intervals 0 then 0 else 1)
        + (if eqb st.interaction.focus_transitions 0
              && eqb st.interaction.scroll_events 0
              && eqb st.interaction.pastes 0
              && eqb st.interaction.injections 0
            then 0
            else 1)

    zero_silent : fl.lt (fl.literal 0 1) (fl.literal 0 1) ≡ false
    zero_silent = zero-IsUnit.0

    sum_channels-heard :
        (st : State F) (action : String) → (sum_channels fl cal st action).active ≤ heard st
    unfolding sum_channels add_channel pointer_channel keystroke_channel interaction_channel
    sum_channels-heard st action = ground (arith, zero_silent)

    -- For every state and action, whatever the calibration and whatever float values the features
    -- hold: score and confidence are neither below 0 nor above 1, and the number of contributing
    -- channels is at most the number of channels that have seen any event, of three.
    pub judge-IsUnit :
        (st : State F) (action : String)
        → IsUnit (judge fl cal st action).score
          × IsUnit (judge fl cal st action).confidence
          × ((judge fl cal st action).contributing ≤ heard st)
          × (heard st ≤ 3)
    unfolding judge conclude
    judge-IsUnit st action =
        let s : Sums fl = sum_channels fl cal st action in
        let score_unit = clamp01-IsUnit (fl.div s.score_num s.score_den) in
        let confidence_unit = clamp01-IsUnit (fl.div s.weighted s.max_weight) in
        ground (arith, zero-IsUnit, sum_channels-heard st action)

-- ===== src/Policy/Reasons.antt =====
-- The reasons of a judgement: each has its evidence, and they are sorted.
use ghost_trace.Prelude.{
  ◌<◌, ◌≡◌, ◌≢◌, inl, inr, Bool, true, false, arith, String, eqb, ◌&&◌, List, [], ◌∷◌, All,
  All-append, Bool-cases, refl,
}
use ghost_trace.Prelude.Float.{Float64}
use ghost_trace.Policy.{Calibration, State, Reason, ReasonCode, Weights, weights_for}
use ghost_trace.Policy.Channels.{reason_if, pointer_channel, keystroke_channel, interaction_channel}
use ghost_trace.Policy.Judge.{
  judge, conclude, sum_channels, add_channel, evidence_reasons, insert_reason, sort_reasons,
}
use ghost_trace.Policy.Bounds.{lt_asym}

module _ {F : Type 0} (fl : Float64 F) where
  -- No reason outweighs the one before it.
  abbrev pub IsRanked : List (Reason F) → Type 0
  IsRanked [] = Unit
  IsRanked (r ∷ []) = Unit
  IsRanked (r ∷ s ∷ rest) = (fl.lt r.weight s.weight ≡ false) × IsRanked (s ∷ rest)

  insert_reason-IsRanked :
      (r : Reason F) (rs : List (Reason F)) → IsRanked rs → IsRanked (insert_reason fl r rs)
  unfolding insert_reason
  insert_reason-IsRanked r [] h = tt
  insert_reason-IsRanked r (s ∷ []) h = ground (arith, lt_asym fl r.weight s.weight)
  insert_reason-IsRanked r (s ∷ t ∷ rest) h = ground (
    arith,
    lt_asym fl r.weight s.weight,
    lt_asym fl r.weight t.weight,
    insert_reason-IsRanked r (t ∷ rest) h.1,
  )

  sort_reasons-IsRanked : (rs : List (Reason F)) → IsRanked (sort_reasons fl rs)
  unfolding sort_reasons
  sort_reasons-IsRanked [] = tt
  sort_reasons-IsRanked (r ∷ rs) =
      insert_reason-IsRanked r (sort_reasons fl rs) (sort_reasons-IsRanked rs)

  insert_reason-All {κ} :
      (P : Reason F → Type κ) (r : Reason F) (rs : List (Reason F))
      → P r
      → All P rs
      → All P (insert_reason fl r rs)
  unfolding insert_reason
  insert_reason-All P r [] p h = (p, tt)
  insert_reason-All P r (s ∷ rs) p h = elim (Bool-cases (fl.lt r.weight s.weight)) [
    | inl after ↦ rw after (h.0, insert_reason-All P r rs p h.1)
    | inr before ↦ rw before (p, (h.0, h.1))
  ]

  sort_reasons-All {κ} :
      (P : Reason F → Type κ) (rs : List (Reason F)) → All P rs → All P (sort_reasons fl rs)
  unfolding sort_reasons
  sort_reasons-All P [] h = tt
  sort_reasons-All P (r ∷ rs) h =
      insert_reason-All P r (sort_reasons fl rs) h.0 (sort_reasons-All P rs h.1)

  reason_if-All {κ} :
      (cal : Calibration F) (P : Reason F → Type κ) (b : Bool) (code : ReasonCode) (weight : F)
      → (b ≡ true → P (record { code = code; weight = weight }))
      → All P (reason_if fl cal b code weight)
  unfolding reason_if
  reason_if-All cal P true code weight h = (h refl, tt)
  reason_if-All cal P false code weight h = tt

  module _ (cal : Calibration F) (st : State F) where
    -- What must have been seen for a reason to be given.
    abbrev pub IsSeen : F → ReasonCode → Type 0
    IsSeen confidence ReasonCode.pointer_linearity = st.pointer.segments ≢ 0
    IsSeen confidence ReasonCode.key_interval_variance_low = st.keystroke.intervals ≢ 0
    IsSeen confidence ReasonCode.key_dwell_absent =
        (fl.lt (fl.literal 0 1) st.keystroke.mean_dwell_ms ≡ true)
        × (fl.lt st.keystroke.mean_dwell_ms cal.dwell_absent_ms ≡ true)
    IsSeen confidence ReasonCode.key_intervals_identical =
        fl.lt (fl.literal 0 1) st.keystroke.exact_repeat_ratio ≡ true
    IsSeen confidence ReasonCode.programmatic_scroll =
        fl.lt (fl.literal 0 1) st.interaction.programmatic_scroll_ratio ≡ true
    IsSeen confidence ReasonCode.no_focus_transitions = st.interaction.focus_transitions ≡ 0
    IsSeen confidence ReasonCode.value_injected = 0 < st.interaction.injections
    IsSeen confidence ReasonCode.insufficient_evidence =
        fl.lt confidence cal.min_confidence_to_challenge ≡ true

    abbrev pub IsJustified : F → Reason F → Type 0
    IsJustified confidence r = IsSeen confidence r.code

    pointer_channel-IsJustified :
        (c w : F) → All (IsJustified c) (pointer_channel fl cal st.pointer w).reasons
    unfolding pointer_channel
    pointer_channel-IsJustified c w = elim (Bool-cases (eqb st.pointer.segments 0)) [
      | inl silent ↦ rw silent tt
      | inr heard ↦ rw heard (reason_if-All cal (IsJustified c) _ _ _ (λ h. ground arith))
    ]

    keystroke_channel-IsJustified :
        (c w : F) → All (IsJustified c) (keystroke_channel fl cal st.keystroke w).reasons
    unfolding keystroke_channel
    keystroke_channel-IsJustified c w = elim (Bool-cases (eqb st.keystroke.intervals 0)) [
      | inl silent ↦ rw silent tt
      | inr heard ↦ rw heard (
          All-append (IsJustified c) _ _
            (All-append (IsJustified c) _ _
              (reason_if-All cal (IsJustified c) _ _ _ (λ h. ground arith))
              (reason_if-All cal (IsJustified c) _ _ _ (λ h. ground arith)))
            (reason_if-All cal (IsJustified c) _ _ _ (λ h. h)))
    ]

    interaction_channel-IsJustified :
        (c w : F) → All (IsJustified c) (interaction_channel fl cal st.interaction w).reasons
    unfolding interaction_channel
    interaction_channel-IsJustified c w =
        elim (Bool-cases (
          eqb st.interaction.focus_transitions 0
          && eqb st.interaction.scroll_events 0
          && eqb st.interaction.pastes 0
          && eqb st.interaction.injections 0)) [
            | inl silent ↦ rw silent tt
            | inr heard ↦ rw heard (
                All-append (IsJustified c) _ _
                  (All-append (IsJustified c) _ _
                    (reason_if-All cal (IsJustified c) _ _ _ (λ h. ground arith))
                    (reason_if-All cal (IsJustified c) _ _ _ (λ h. h)))
                  (reason_if-All cal (IsJustified c) _ _ _ (λ h. ground arith)))
          ]

    evidence_reasons-IsJustified : (c : F) → All (IsJustified c) (evidence_reasons fl cal c)
    unfolding evidence_reasons
    evidence_reasons-IsJustified c = elim (Bool-cases (fl.lt c cal.min_confidence_to_challenge)) [
      | inl low ↦ rw low (low, tt)
      | inr high ↦ rw high tt
    ]

    -- For every state and action, the reasons of a judgement are ranked by descending weight, and
    -- each has its evidence: a pointer reason a segment, a rhythm reason an interval, a dwell
    -- reason a mean dwell between 0 and the threshold, a repeat reason a positive ratio of exact
    -- repeats, a scroll reason a positive ratio of programmatic scrolls, a focus reason no focus
    -- transition, an injection reason an injection, and insufficient evidence a reported
    -- confidence below the challenge floor.
    pub judge-IsJustified :
        (action : String)
        → IsRanked (judge fl cal st action).reasons
          × All (IsJustified (judge fl cal st action).confidence) (judge fl cal st action).reasons
    unfolding judge conclude sum_channels add_channel
    judge-IsJustified action =
        let w : Weights F = weights_for fl action in
        (
          sort_reasons-IsRanked _,
          sort_reasons-All (IsJustified _) _ (
              All-append (IsJustified _) _ _
                (All-append (IsJustified _) _ _
                  (All-append (IsJustified _) _ _ (pointer_channel-IsJustified _ w.pointer)
                    (keystroke_channel-IsJustified _ w.keystroke))
                  (interaction_channel-IsJustified _ w.interaction))
                (evidence_reasons-IsJustified _)),
        )

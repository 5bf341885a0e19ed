-- ===== src/Policy/Judge.antt =====
-- `Judge`, `Apply` and `enforced`.
use ghost_trace.Prelude.{
  ℕ, ◌+◌, List, [], ◌∷◌, ◌++◌, ◌&&◌, leb, String, ◌==◌, string_comparable, if◌then◌else◌, Option,
  none, some, ◌⊎◌, inl, inr,
}
use ghost_trace.Prelude.Float.{Float64}
use ghost_trace.Policy.{
  Calibration, State, ReasonCode, Reason, Judgement, Channel, Decision, PolicyError, unknown_mode,
  Weights, weights_for, clamp01,
}
use ghost_trace.Policy.Channels.{pointer_channel, keystroke_channel, interaction_channel}

abbrev pub mode_monitor : String
mode_monitor = "monitor"

abbrev pub mode_enforce : String
mode_enforce = "enforce"

-- An outcome's shadow is `none` for Go's "".
pub record Outcome : Type 0 where
  pub decision : Decision
  pub shadow : Option Decision

module _ {F : Type 0} (fl : Float64 F) where
  -- The variables of `Judge`'s loop over the channels.
  pub record Sums : Type 0 where
    pub score_num : F
    pub score_den : F
    pub weighted : F
    pub max_weight : F
    pub active : ℕ
    pub reasons : List (Reason F)

  unfoldable pub add_channel : Channel F → Sums → Sums
  add_channel c s = record {
    score_num = fl.add s.score_num (fl.mul c.score effective);
    score_den = fl.add s.score_den effective;
    weighted = fl.add s.weighted effective;
    max_weight = if fl.lt s.max_weight c.weight then c.weight else s.max_weight;
    active = if fl.lt (fl.literal 0 1) c.confidence then s.active + 1 else s.active;
    reasons = s.reasons ++ c.reasons;
  }
    where
      effective : F
      effective = fl.mul c.weight c.confidence

  abbrev pub no_sums : Sums
  no_sums = record {
    score_num = fl.literal 0 1;
    score_den = fl.literal 0 1;
    weighted = fl.literal 0 1;
    max_weight = fl.literal 0 1;
    active = 0;
    reasons = [];
  }

  -- `sort.SliceStable` by descending weight: the stable insertion of each element in turn.
  unfoldable pub insert_reason : Reason F → List (Reason F) → List (Reason F)
  insert_reason r [] = r ∷ []
  insert_reason r (s ∷ rest) =
      if fl.lt r.weight s.weight then s ∷ insert_reason r rest else r ∷ s ∷ rest

  unfoldable pub sort_reasons : List (Reason F) → List (Reason F)
  sort_reasons [] = []
  sort_reasons (r ∷ rest) = insert_reason r (sort_reasons rest)

  module _ (cal : Calibration F) where
    -- The loop over the three channels.
    unfoldable pub sum_channels : State F → String → Sums
    sum_channels st action = add_channel (interaction_channel fl cal st.interaction w.interaction) (
        add_channel (keystroke_channel fl cal st.keystroke w.keystroke)
          (add_channel (pointer_channel fl cal st.pointer w.pointer) no_sums))
      where
        w : Weights F
        w = weights_for fl action

    -- The reason that is added when the confidence is too low to challenge.
    unfoldable pub evidence_reasons : F → List (Reason F)
    evidence_reasons confidence =
        if fl.lt confidence cal.min_confidence_to_challenge
        then record {
          code = ReasonCode.insufficient_evidence;
          weight = fl.sub (fl.literal 1 1) confidence;
        }
          ∷ []
        else []

    unfoldable pub conclude : Sums → Judgement F
    conclude s = record {
      score =
          if fl.lt (fl.literal 0 1) s.score_den
          then clamp01 fl (fl.div s.score_num s.score_den)
          else fl.literal 0 1;
      confidence = confidence;
      reasons = sort_reasons (s.reasons ++ evidence_reasons confidence);
      contributing = s.active;
    }
      where
        confidence : F
        confidence =
            if fl.lt (fl.literal 0 1) s.max_weight
            then clamp01 fl (fl.div s.weighted s.max_weight)
            else fl.literal 0 1

    unfoldable pub judge : State F → String → Judgement F
    judge st action = conclude (sum_channels st action)

    unfoldable pub enforced : Judgement F → Decision
    enforced j =
        if fl.le cal.min_confidence_to_block j.confidence
          && fl.le cal.score_to_block j.score
          && leb cal.min_channels_to_block j.contributing
        then Decision.block
        else if fl.le cal.min_confidence_to_challenge j.confidence
            && fl.le cal.score_to_challenge j.score
        then Decision.challenge
        else Decision.allow

    unfoldable pub apply : Judgement F → String → PolicyError ⊎ Outcome
    apply j mode =
        if mode == mode_monitor
        then inr (record { decision = Decision.allow; shadow = some (enforced j) })
        else if mode == mode_enforce
        then inr (record { decision = enforced j; shadow = none })
        else inl (unknown_mode mode)

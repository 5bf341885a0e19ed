-- ===== src/Policy/Restraint.antt =====
-- When `Apply` holds back: too little evidence, or a single channel.
use ghost_trace.Prelude.{
  ◌≤◌, ◌<◌, ◌≡◌, ◌≢◌, ◌⊎◌, inr, true, arith, String, none, some, string_comparable,
}
use ghost_trace.Prelude.Float.{Float64}
use ghost_trace.Policy.{Calibration, State, Judgement, Decision}
use ghost_trace.Policy.Judge.{judge, enforced, apply, Outcome, mode_monitor, mode_enforce}
use ghost_trace.Policy.Bounds.{heard, judge-IsUnit}

module _ {F : Type 0} (fl : Float64 F) (cal : Calibration F) where
  -- What the outcome decides, or would have decided in monitor mode.
  abbrev pub verdict : Outcome → Decision
  verdict o = elim o.shadow [ none ↦ o.decision | some d ↦ d ]

  -- Under a calibration that asks at least as much confidence to block as to challenge: while a
  -- session's confidence is below the challenge floor, every accepted mode allows the request,
  -- and the shadow verdict of monitor mode is to allow as well, whatever the score.
  pub apply-cold_start :
      (st : State F) (action mode : String) (o : Outcome)
      → fl.le cal.min_confidence_to_challenge cal.min_confidence_to_block ≡ true
      → fl.lt (judge fl cal st action).confidence cal.min_confidence_to_challenge ≡ true
      → apply fl cal (judge fl cal st action) mode ≡ inr o
      → (o.decision ≡ Decision.allow) × (verdict o ≡ Decision.allow)
  unfolding apply enforced
  apply-cold_start st action mode o ordered cold h =
      let j : Judgement F = judge fl cal st action in
      let below =
        fl.lt_le_trans j.confidence cal.min_confidence_to_challenge cal.min_confidence_to_block cold
          ordered in
      let no_block = fl.lt_not_le j.confidence cal.min_confidence_to_block below in
      let no_challenge = fl.lt_not_le j.confidence cal.min_confidence_to_challenge cold in
      ground arith

  -- When fewer channels have seen an event than the calibration asks for to block, no accepted
  -- mode blocks the request, nor is the shadow verdict of monitor mode to block.
  pub apply-uncorroborated :
      (st : State F) (action mode : String) (o : Outcome)
      → heard fl cal st < cal.min_channels_to_block
      → apply fl cal (judge fl cal st action) mode ≡ inr o
      → (o.decision ≢ Decision.block) × (verdict o ≢ Decision.block)
  unfolding apply enforced
  apply-uncorroborated st action mode o few h =
      let j : Judgement F = judge fl cal st action in
      let contributing : j.contributing ≤ heard fl cal st = (judge-IsUnit fl cal st action).2 in
      ground arith

  -- For any two accepted modes the verdicts on one judgement agree: monitor mode, which always
  -- allows, records in its shadow what enforce mode decides; and the two are the only modes that
  -- are accepted.
  pub apply-agreement :
      (j : Judgement F) (mode mode' : String) (o o' : Outcome)
      → apply fl cal j mode ≡ inr o
      → apply fl cal j mode' ≡ inr o'
      → (verdict o ≡ verdict o')
        × ((mode ≡ mode_enforce) ⊎ (o.decision ≡ Decision.allow))
        × ((mode ≡ mode_enforce) ⊎ (mode ≡ mode_monitor))
  unfolding apply
  apply-agreement j mode mode' o o' h h' = ground (
    arith,
    string_comparable.same_iff mode mode_monitor,
    string_comparable.same_iff mode mode_enforce,
  )

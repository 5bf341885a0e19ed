-- ===== src/Policy.antt =====
-- libs/policy: policy.go and the calibration of calibration.go. The calibration that the package
-- keeps in a variable is an argument of the functions that read it.
use ghost_trace.Prelude.{ℕ, List, [], ◌∷◌, Bool, String, ◌==◌, string_comparable, if◌then◌else◌}
use ghost_trace.Prelude.Float.{Float64}
use ghost_trace.Features.{PointerState, KeystrokeState, InteractionState}
pub mod Channels
pub mod Judge
pub mod Bounds
pub mod Restraint
pub mod Calibrations
pub mod Validity
pub mod Loading
mod Reasons
mod Tests

pub record Calibration (F : Type 0) : Type 0 where
  pub straightness_floor : F
  pub straightness_ceil : F
  pub flight_cv_floor : F
  pub flight_cv_ceil : F
  pub dwell_absent_ms : F
  pub identical_interval_ratio : F
  pub confidence_segments : F
  pub confidence_path_px : F
  pub confidence_intervals : F
  pub min_confidence_to_challenge : F
  pub min_confidence_to_block : F
  pub score_to_challenge : F
  pub score_to_block : F
  pub min_channels_to_block : ℕ

pub record State (F : Type 0) : Type 0 where
  pub pointer : PointerState F
  pub keystroke : KeystrokeState F
  pub interaction : InteractionState F

pub record Weights (F : Type 0) : Type 0 where
  pub pointer : F
  pub keystroke : F
  pub interaction : F

pub data ReasonCode : Type 0 where
  pointer_linearity : ReasonCode
  key_interval_variance_low : ReasonCode
  key_dwell_absent : ReasonCode
  key_intervals_identical : ReasonCode
  programmatic_scroll : ReasonCode
  no_focus_transitions : ReasonCode
  value_injected : ReasonCode
  insufficient_evidence : ReasonCode

pub record Reason (F : Type 0) : Type 0 where
  pub code : ReasonCode
  pub weight : F

pub record Judgement (F : Type 0) : Type 0 where
  pub score : F
  pub confidence : F
  pub reasons : List (Reason F)
  pub contributing : ℕ

pub record Channel (F : Type 0) : Type 0 where
  pub score : F
  pub confidence : F
  pub weight : F
  pub reasons : List (Reason F)

pub data Decision : Type 0 where
  allow : Decision
  challenge : Decision
  block : Decision

pub data PolicyError : Type 0 where
  unknown_mode : String → PolicyError

module _ {F : Type 0} (fl : Float64 F) where
  abbrev pub hundredths : ℕ → ℕ → ℕ → Weights F
  hundredths p k i = record {
    pointer = fl.literal p 100;
    keystroke = fl.literal k 100;
    interaction = fl.literal i 100;
  }

  unfoldable pub weights_for : String → Weights F
  weights_for action =
      if action == "login"
      then hundredths 35 50 15
      else if action == "signup"
      then hundredths 30 55 15
      else if action == "checkout"
      then hundredths 55 20 25
      else if action == "comment"
      then hundredths 25 60 15
      else hundredths 40 40 20

  unfoldable pub clamp01 : F → F
  clamp01 v =
      if fl.lt v (fl.literal 0 1)
      then fl.literal 0 1
      else if fl.lt (fl.literal 1 1) v
      then fl.literal 1 1
      else v

  unfoldable pub ramp : F → F → F → F
  ramp v zero_at one_at =
      if fl.eq zero_at one_at
      then fl.literal 0 1
      else clamp01 (fl.div (fl.sub v zero_at) (fl.sub one_at zero_at))

  -- `maxOf` from the greatest value met so far, which is 0 at the start.
  unfoldable pub max_from : F → List F → F
  max_from m [] = m
  max_from m (v ∷ vs) = max_from (if fl.lt m v then v else m) vs

  unfoldable pub max_of : List F → F
  max_of vs = max_from (fl.literal 0 1) vs

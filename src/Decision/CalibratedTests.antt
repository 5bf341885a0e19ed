-- ===== src/Decision/CalibratedTests.antt =====
-- A program whose first load fails and whose second takes an eager calibration, and a request
-- without a session.
use ghost_trace.Prelude.{
  ℕ, ◌≡◌, ◌≢◌, refl, Bool, false, List, [], ◌∷◌, Option, none, some, inr, bytes_equal,
}
use mathlib.Core.List.Permᴰ
use ghost_trace.Prelude.Text.{Text, codes}
use ghost_trace.Prelude.FixedPoint.{fixed_point}
use ghost_trace.Canonical.{Bytes, hash_hex}
use ghost_trace.Policy.{Calibration, Decision, weights_for, clamp01}
use ghost_trace.Policy.Calibrations.{Ranging, Active, init, load_calibration, derive_ref}
use ghost_trace.Policy.Judge.{
  apply, enforced, judge, conclude, sum_channels, sort_reasons, add_channel, evidence_reasons,
}
use ghost_trace.Policy.Channels.{pointer_channel, keystroke_channel, interaction_channel}
use ghost_trace.Policy.Validity.{IsRanging}
use ghost_trace.Policy.Loading.{loads}
use ghost_trace.Decision.{Appended, Output, decide, decide_on, mint_and_archive}
use ghost_trace.Decision.BestEffort.{output_verdict}
use ghost_trace.Decision.Calibrated.{served-unfound}
use ghost_trace.Decision.Tests.{eager, no_port, from_globex}

-- The empty file does not decode, and every other is the eager calibration.
abbrev decode : Bytes → Option (Calibration ℕ × Bool)
decode [] = none
decode (b ∷ bs) = some (eager, false)

abbrev to_json : Calibration ℕ → Bytes
to_json c = c.min_channels_to_block ∷ []

abbrev sum256 : Bytes → Bytes
sum256 b = 1 ∷ 2 ∷ 3 ∷ 4 ∷ b

abbrev in_order : Ranging ℕ
in_order = record { unit = λ xs. xs; positive = λ xs. xs }

in_order-IsRanging : IsRanging in_order
in_order-IsRanging = record { unit_all = λ xs. Permᴰ.refl xs; positive_all = λ xs. Permᴰ.refl xs }

abbrev two_loads : List (Ranging ℕ × Text × Option Bytes)
two_loads =
    (in_order, codes "/etc/empty.json", some [])
    ∷ (in_order, codes "/etc/eager.json", some (7 ∷ []))
    ∷ []

abbrev at_start : Active ℕ
at_start = record { cal = eager; ref = codes "multi-signal-v1+default@01020304" }

started : init fixed_point decode to_json sum256 in_order (9 ∷ []) ≡ some at_start
unfolding init derive_ref hash_hex
started = refl

ref_now :
    (loads fixed_point decode to_json sum256 two_loads at_start).ref
    ≡ codes "multi-signal-v1+eager@01020304"
unfolding loads load_calibration derive_ref bytes_equal hash_hex
ref_now = refl

abbrev challenged : Output ℕ
challenged = record {
  evaluation_id = "ev_1";
  decision = Decision.challenge;
  shadow_decision = none;
  score = 0;
  confidence = 0;
  reasons = [];
  evidence_events = 0;
  evidence_ms = 0;
  mode = "enforce";
}

answered :
    (decide fixed_point
      (loads fixed_point decode to_json sum256 two_loads at_start).cal
      "enforce"
      no_port
      (some "ev_1")
      Appended.written
      from_globex).0
    ≡ inr challenged
unfolding decide decide_on mint_and_archive apply enforced judge loads conclude load_calibration
    sum_channels sort_reasons add_channel pointer_channel weights_for keystroke_channel
    interaction_channel clamp01 evidence_reasons
answered = refl

served-unfound_example :
    (challenged.decision ≢ Decision.block)
    × (output_verdict fixed_point
          (loads fixed_point decode to_json sum256 two_loads at_start).cal
          challenged
        ≢ Decision.block)
served-unfound_example =
    served-unfound fixed_point decode to_json sum256 in_order (9 ∷ []) two_loads at_start "enforce"
      no_port (some "ev_1") Appended.written from_globex challenged in_order-IsRanging
      (in_order-IsRanging, (in_order-IsRanging, tt)) started refl answered

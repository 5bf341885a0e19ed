-- ===== src/Decision/Calibrated.antt =====
-- The decision service under the calibrations that libs/policy/calibration.go lets become active.
use ghost_trace.Prelude.{◌≡◌, ◌≢◌, Bool, false, List, Option, some, inr, String, All}
use ghost_trace.Prelude.Text.{Text}
use ghost_trace.Prelude.Float.{Float64}
use ghost_trace.Canonical.{Bytes}
use ghost_trace.Policy.{Calibration, Decision}
use ghost_trace.Policy.Calibrations.{Ranging, Active, init}
use ghost_trace.Policy.Validity.{IsRanging}
use ghost_trace.Policy.Loading.{loads, init-loads-IsActive}
use ghost_trace.Decision.{Session, Input, Output, Appended, no_session, decide}
use ghost_trace.Decision.BestEffort.{decide-unfound, output_verdict}

module _ {F : Type 0} (fl : Float64 F) (decode : Bytes → Option (Calibration F × Bool))
    (to_json : Calibration F → Bytes) (sum256 : Bytes → Bytes) where
  -- In a program that started on its embedded calibration and then loaded any files, of which any
  -- may have failed, no request whose session is not found is answered with block, nor with a shadow
  -- of block, whatever the mode. The hypothesis is that a range over a map meets each entry once.
  pub served-unfound :
      (r : Ranging F) (embedded : Bytes) (ls : List (Ranging F × Text × Option Bytes))
      (a : Active F) (mode : String) (sessions : String → String → Option (Session F × Bool))
      (eval_id : Option String) (x : Appended) (i : Input) (o : Output F)
      → IsRanging r
      → All (λ l. IsRanging l.0) ls
      → init fl decode to_json sum256 r embedded ≡ some a
      → sessions i.tenant_id i.session_token ≡ some (no_session fl, false)
      → (decide fl (loads fl decode to_json sum256 ls a).cal mode sessions eval_id x i).0 ≡ inr o
      → (o.decision ≢ Decision.block)
        × (output_verdict fl (loads fl decode to_json sum256 ls a).cal o ≢ Decision.block)
  served-unfound r embedded ls a mode sessions eval_id x i o all rest started absent h =
      let active = init-loads-IsActive fl decode to_json sum256 r embedded ls a all rest started in
      decide-unfound fl (loads fl decode to_json sum256 ls a).cal mode sessions eval_id x i o
        active.valid.a_channel absent h

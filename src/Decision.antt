-- ===== src/Decision.antt =====
-- libs/decision (decide.go, outcome.go, decision.go, errors.go) and the collector's session port,
-- services/collector/internal/adapters/livesessions. What the session port, the archive, `id.New`
-- and the clock answer in a call are arguments of it.
use ghost_trace.Prelude.{
  ℕ, ◌+◌, ◌%◌, Bool, true, false, ◌||◌, String, Option, none, some, List, [], ◌∷◌, ◌==◌,
  string_comparable, if◌then◌else◌, ◌⊎◌, inl, inr,
}
use ghost_trace.Prelude.Float.{Float64}
use ghost_trace.Features.{PointerState, KeystrokeState, InteractionState}
use ghost_trace.Features.Segments.{pointer_state}
use ghost_trace.Features.Timing.{keystroke_state}
use ghost_trace.Features.Counters.{interaction_state}
use ghost_trace.Policy.{Calibration, State, Reason, Judgement, Decision, PolicyError}
use ghost_trace.Policy.Judge.{judge, apply, Outcome}
use ghost_trace.Session as Sess
use ghost_trace.Session.{Store, with_token}
pub mod Recording
mod Tenancy
mod BestEffort
mod Calibrated
mod CalibratedTests
mod Outcomes
mod Tests

pub record Session (F : Type 0) : Type 0 where
  pub id : String
  pub tenant_id : String
  pub state : State F
  pub last_event_ms : ℕ

pub record Input : Type 0 where
  pub tenant_id : String
  pub session_token : String
  pub action : String
  pub subject_id : String

pub record Output (F : Type 0) : Type 0 where
  pub evaluation_id : String
  pub decision : Decision
  pub shadow_decision : Option Decision
  pub score : F
  pub confidence : F
  pub reasons : List (Reason F)
  pub evidence_events : ℕ
  pub evidence_ms : ℕ
  pub mode : String

pub data DecideError : Type 0 where
  tenant_required : DecideError
  action_required : DecideError
  lookup_failed : DecideError
  policy_failed : PolicyError → DecideError
  mint_failed : DecideError

-- What an Append of the archive answers: done, no archive configured, out of time, refused.
pub data Appended : Type 0 where
  written : Appended
  unavailable : Appended
  deadline : Appended
  refused : Appended

pub data LossReason : Type 0 where
  deadline : LossReason
  error : LossReason

-- A call of the LossMeter.
pub data LossCall : Type 0 where
  count_written : LossCall
  count_dropped : LossReason → LossCall

-- `reasonFor`, on the errors that reach it.
abbrev pub reason_for : Bool → LossReason
reason_for true = LossReason.deadline
reason_for false = LossReason.error

-- `archiveBestEffort`: the calls of the meter, and nothing to the caller.
unfoldable pub archive_best_effort : Appended → List LossCall
archive_best_effort Appended.written = count_written ∷ []
archive_best_effort Appended.unavailable = []
archive_best_effort Appended.deadline = count_dropped (reason_for true) ∷ []
archive_best_effort Appended.refused = count_dropped (reason_for false) ∷ []

module _ {F : Type 0} (fl : Float64 F) where
  -- The zero `Session{}`, whose state is that of a session that has seen nothing.
  abbrev pub no_session : Session F
  no_session = record {
    id = "";
    tenant_id = "";
    state = record {
      pointer = record {
        straightness = fl.literal 0 1;
        segments = 0;
        path_px = fl.literal 0 1;
        points = 0;
      };
      keystroke = record {
        flight_cv = fl.literal 0 1;
        dwell_cv = fl.literal 0 1;
        mean_dwell_ms = fl.literal 0 1;
        exact_repeat_ratio = fl.literal 0 1;
        intervals = 0;
        keys = 0;
      };
      interaction = record {
        programmatic_scroll_ratio = fl.literal 0 1;
        scroll_events = 0;
        focus_transitions = 0;
        distinct_focus_targets = 0;
        hidden_periods = 0;
        pastes = 0;
        autofills = 0;
        injections = 0;
        injected_fields = 0;
      };
    };
    last_event_ms = 0;
  }

  -- `Lookup`'s callback: the copy of the session, when it is the caller's.
  unfoldable pub copy_mine : String → Sess.State F → Sess.State F × Option (Session F)
  copy_mine tenant_id st =
      if st.tenant_id == tenant_id
      then (
        st,
        some (record {
          id = st.id;
          tenant_id = st.tenant_id;
          state = record {
            pointer = pointer_state fl st.pointer;
            keystroke = keystroke_state fl st.keystroke;
            interaction = interaction_state fl st.interaction;
          };
          last_event_ms = st.last_event_ms;
        }),
      )
      else (st, none)

  -- No session for an unknown token and for another tenant's alike.
  abbrev pub found_or_miss : Option (Option (Session F)) → Session F × Bool
  found_or_miss none = (no_session, false)
  found_or_miss (some none) = (no_session, false)
  found_or_miss (some (some sess)) = (sess, true)

  -- The live store's `Lookup`; its only error is ErrNotFound, which is a miss.
  unfoldable pub live_lookup : String → String → ℕ → Store F → Store F × (Session F × Bool)
  live_lookup tenant_id token now s = (
    (with_token token (copy_mine tenant_id) now s).0,
    found_or_miss (with_token token (copy_mine tenant_id) now s).1,
  )

  abbrev pub output_of : String → String → Session F → Bool → Judgement F → Outcome → Output F
  output_of mode eval_id sess found j o = record {
    evaluation_id = eval_id;
    decision = o.decision;
    shadow_decision = o.shadow;
    score = j.score;
    confidence = j.confidence;
    reasons = j.reasons;
    evidence_events = (sess.state.pointer.points + sess.state.keystroke.keys) % 4294967296;
    evidence_ms = if found then sess.last_event_ms else 0;
    mode = mode;
  }

  -- The rest of `Decide` once the policy was applied: minting the id, the output, the archive.
  unfoldable pub mint_and_archive :
      (Outcome → String → Output F)
      → Option String
      → Appended
      → PolicyError ⊎ Outcome
      → (DecideError ⊎ Output F) × List LossCall
  mint_and_archive out eval_id appended (inl e) = (inl (policy_failed e), [])
  mint_and_archive out none appended (inr o) = (inl mint_failed, [])
  mint_and_archive out (some eval_id) appended (inr o) =
      (inr (out o eval_id), archive_best_effort appended)

  -- `Decide` on what the session port answered.
  unfoldable pub decide_on :
      Calibration F
      → String
      → Input
      → Option (Session F × Bool)
      → Option String
      → Appended
      → (DecideError ⊎ Output F) × List LossCall
  decide_on cal mode i none eval_id appended = (inl lookup_failed, [])
  decide_on cal mode i (some (sess, found)) eval_id appended =
      mint_and_archive (λ o id. output_of mode id sess found j o) eval_id appended
        (apply fl cal j mode)
    where
      j : Judgement F
      j = judge fl cal sess.state i.action

  unfoldable pub decide :
      Calibration F
      → String
      → (String → String → Option (Session F × Bool))
      → Option String
      → Appended
      → Input
      → (DecideError ⊎ Output F) × List LossCall
  decide cal mode sessions eval_id appended i =
      if i.tenant_id == ""
      then (inl tenant_required, [])
      else if i.action == ""
      then (inl action_required, [])
      else decide_on cal mode i (sessions i.tenant_id i.session_token) eval_id appended

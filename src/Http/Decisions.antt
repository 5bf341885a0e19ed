-- ===== src/Http/Decisions.antt =====
-- libs/decision/http.go: the two endpoints of the application server. `json.Decode` of the body and
-- `time.Parse` are arguments.
use ghost_trace.Prelude.Int.{ℤ}
use ghost_trace.Prelude.{
  ℕ, Bool, String, List, [], ◌∷◌, Option, none, some, ◌⊎◌, inl, inr, ◌==◌, string_comparable,
  if◌then◌else◌,
}
use ghost_trace.Prelude.Float.{Float64}
use ghost_trace.Policy.{Calibration, Reason, Decision}
use ghost_trace.Tenant.{Registry}
use ghost_trace.Decision.{Session, Output, DecideError, action_required, Appended, LossCall, decide}
use ghost_trace.Decision.Recording.{
  OutcomeRecord, OutcomeError, evaluation_id_required, unknown_outcome, archive_unavailable,
  record_outcome,
}
use ghost_trace.Http.{Request, WriterCall, write_header}
use ghost_trace.Http.Auth.{caller, Payload, result_body, write_json, write_error}

pub record DecisionsRequest : Type 0 where
  pub session_token : String
  pub action : String
  pub subject_id : String

pub record DecisionsResponse (F : Type 0) : Type 0 where
  pub evaluation_id : String
  pub decision : Decision
  pub shadow_decision : Option Decision
  pub score : F
  pub confidence : F
  pub reasons : List (Reason F)
  pub events : ℕ
  pub duration_ms : ℕ
  pub mode : String

pub record OutcomesRequest : Type 0 where
  pub evaluation_id : String
  pub outcome : String
  pub observed_at : String

-- The service's `writeError`, on the errors of `Decide`.
unfoldable pub decide_error : {A : Type 0} → DecideError → List (WriterCall (Payload A))
decide_error action_required = write_error 400 "action is required"
decide_error _ = write_error 500 "decision failed"

-- The service's `writeError`, on the errors of `RecordOutcome`.
unfoldable pub outcome_error : {A : Type 0} → OutcomeError → List (WriterCall (Payload A))
outcome_error evaluation_id_required = write_error 400 "evaluation_id is required"
outcome_error unknown_outcome = write_error 400 "unknown outcome"
outcome_error archive_unavailable = write_error 503 "outcome storage not configured"
outcome_error _ = write_error 500 "could not record outcome"

module _ {F : Type 0} (fl : Float64 F) where
  -- `float64(int(f*1000+0.5)) / 1000`
  unfoldable pub round3 : F → F
  round3 f =
      fl.div (fl.of_int (fl.trunc (fl.add (fl.mul f (fl.literal 1000 1)) (fl.literal 5 10))))
        (fl.literal 1000 1)

  unfoldable pub response_of : Output F → DecisionsResponse F
  response_of out = record {
    evaluation_id = out.evaluation_id;
    decision = out.decision;
    shadow_decision = out.shadow_decision;
    score = round3 out.score;
    confidence = round3 out.confidence;
    reasons = out.reasons;
    events = out.evidence_events;
    duration_ms = out.evidence_ms;
    mode = out.mode;
  }

  abbrev pub DecisionCalls : Type 0
  DecisionCalls = List (WriterCall (Payload (DecisionsResponse F)))

  abbrev pub answer_decision : DecideError ⊎ Output F → DecisionCalls
  answer_decision (inl e) = decide_error e
  answer_decision (inr out) = write_json 200 (result_body (response_of out))

  -- `handleDecisions`: its calls on the writer, and those of the meter.
  unfoldable pub handle_decisions :
      Registry
      → Calibration F
      → String
      → (String → String → Option (Session F × Bool))
      → Option String
      → Appended
      → Request
      → Option DecisionsRequest
      → DecisionCalls × List LossCall
  handle_decisions tenants cal mode sessions eval_id appended r body = elim (caller tenants r) [
    | none ↦ (write_error 401 "invalid secret_key", [])
    | some who ↦ elim body [
      | none ↦ (write_error 400 "malformed JSON body", [])
      | some req ↦
          let done = decide fl cal mode sessions eval_id appended (record {
            tenant_id = who.id;
            session_token = req.session_token;
            action = req.action;
            subject_id = req.subject_id;
          }) in
          (answer_decision done.0, done.1)
    ]
  ]

-- The observed time of the request, `none` where there is none; an outer `none` where it is not a time.
unfoldable pub observed_time : (String → Option (Option ℤ)) → String → Option (Option ℤ)
observed_time parse_time observed_at =
    if observed_at == "" then some none else parse_time observed_at

abbrev pub answer_outcome : OutcomeError ⊎ Unit {0} → List (WriterCall (Payload (Unit {0})))
answer_outcome (inl e) = outcome_error e
answer_outcome (inr _) = write_header 202 ∷ []

-- `handleOutcomes`: its calls on the writer, and the record that it asks the archive to append.
unfoldable pub handle_outcomes :
    Registry
    → (String → Option (Option ℤ))
    → ℤ
    → ℤ
    → (OutcomeRecord → Appended)
    → Request
    → Option OutcomesRequest
    → List (WriterCall (Payload (Unit {0}))) × Option OutcomeRecord
handle_outcomes tenants parse_time observed_now recorded_now archive r body =
    elim (caller tenants r) [
      | none ↦ (write_error 401 "invalid secret_key", none)
      | some who ↦ elim body [
        | none ↦ (write_error 400 "malformed JSON body", none)
        | some req ↦ elim (observed_time parse_time req.observed_at) [
          | none ↦ (write_error 400 "observed_at must be RFC 3339", none)
          | some observed_at ↦
              let done = record_outcome observed_now recorded_now archive (record {
                tenant_id = who.id;
                evaluation_id = req.evaluation_id;
                outcome = req.outcome;
                observed_at = observed_at;
              }) in
              (answer_outcome done.1, done.0)
        ]
      ]
    ]

-- ===== src/Http/DecisionAnswers.antt =====
-- What the decision endpoint answers, and for whom.
use ghost_trace.Prelude.{
  sum_cases, ◌≡◌, ◌≢◌, ◌⊎◌, inl, inr, refl, ap, Bool, String, List, [], Option, none, some, arith,
  Option-cases, string_comparable,
}
use ghost_trace.Prelude.Float.{Float64}
use ghost_trace.Policy.{Calibration, PolicyError}
use ghost_trace.Policy.Judge.{Outcome}
use ghost_trace.Tenant.{Tenant, Registry, new, by_secret_key}
use ghost_trace.Tenant.Keys.{Has, new-keys, new-IsNamed}
use ghost_trace.Decision.{
  Session, Input, Output, DecideError, tenant_required, action_required, lookup_failed,
  policy_failed, mint_failed, Appended, LossCall, decide, decide_on, mint_and_archive,
}
use ghost_trace.Http.{Request}
use ghost_trace.Http.Auth.{bearer_token, caller, result_body, write_json, write_error}
use ghost_trace.Http.Decisions.{
  DecisionsRequest, DecisionCalls, decide_error, response_of, answer_decision, handle_decisions,
}

module _ {F : Type 0} (fl : Float64 F) where
  mint_and_archive-tenant_required :
      (out : Outcome → String → Output F) (eval_id : Option String) (appended : Appended)
      (applied : PolicyError ⊎ Outcome)
      → (mint_and_archive fl out eval_id appended applied).0 ≢ inl tenant_required
  unfolding mint_and_archive
  mint_and_archive-tenant_required out eval_id appended (inl e) h = ground arith
  mint_and_archive-tenant_required out none appended (inr o) h = ground arith
  mint_and_archive-tenant_required out (some id) appended (inr o) h = ground arith

  decide_on-tenant_required :
      (cal : Calibration F) (mode : String) (i : Input) (found : Option (Session F × Bool))
      (eval_id : Option String) (appended : Appended)
      → (decide_on fl cal mode i found eval_id appended).0 ≢ inl tenant_required
  unfolding decide_on
  decide_on-tenant_required cal mode i none eval_id appended h = ground arith
  decide_on-tenant_required cal mode i (some (sess, found)) eval_id appended h =
      mint_and_archive-tenant_required _ eval_id appended _ h

  decide-tenant_required :
      (cal : Calibration F) (mode : String) (sessions : String → String → Option (Session F × Bool))
      (eval_id : Option String) (appended : Appended) (i : Input)
      → i.tenant_id ≢ ""
      → (decide fl cal mode sessions eval_id appended i).0 ≢ inl tenant_required
  unfolding decide
  decide-tenant_required cal mode sessions eval_id appended i named h = ground (
    arith,
    string_comparable.same_iff i.tenant_id "",
    decide_on-tenant_required cal mode i (sessions i.tenant_id i.session_token) eval_id appended,
  )

  module _ (ts : List Tenant) (tenants : Registry) (cal : Calibration F) (mode : String)
      (sessions : String → String → Option (Session F × Bool)) (eval_id : Option String)
      (appended : Appended) (r : Request) where
    abbrev pub handled : Option DecisionsRequest → DecisionCalls fl × List LossCall
    handled body = handle_decisions fl tenants cal mode sessions eval_id appended r body

    -- What `Decide` is asked on behalf of a tenant.
    abbrev pub decided : Tenant → DecisionsRequest → (DecideError ⊎ Output F) × List LossCall
    decided t req = decide fl cal mode sessions eval_id appended (record {
      tenant_id = t.id;
      session_token = req.session_token;
      action = req.action;
      subject_id = req.subject_id;
    })

    -- The calls for each of the results that a tenant's request can have.
    abbrev pub AnswersTenant : Tenant → DecisionsRequest → DecisionCalls fl → Type 0
    AnswersTenant t req calls =
        ((out : Output F) × ((decided t req).0 ≡ inr out)
          × (calls ≡ write_json 200 (result_body (response_of fl out))))
        ⊎ (((decided t req).0 ≡ inl action_required)
            × (calls ≡ write_error 400 "action is required"))
        ⊎ ((e : DecideError) × ((decided t req).0 ≡ inl e)
            × (e ≢ action_required)
            × (e ≢ tenant_required)
            × (calls ≡ write_error 500 "decision failed"))

    answer-AnswersTenant :
        (t : Tenant) (req : DecisionsRequest)
        → t.id ≢ ""
        → AnswersTenant t req (answer_decision fl (decided t req).0)
    unfolding decide_error
    answer-AnswersTenant t req named = elim (sum_cases (decided t req).0) [
      | inr (out, e) ↦ inl (out, e, ap (answer_decision fl) e)
      | inl (action_required, e) ↦ inr (inl (e, ap (answer_decision fl) e))
      | inl (tenant_required, e) ↦
          absurd (decide-tenant_required cal mode sessions eval_id appended _ named e)
      | inl (lookup_failed, e) ↦ inr (
          inr (
            lookup_failed,
            e,
            λ q. absurd (ground arith),
            λ q. absurd (ground arith),
            ap (answer_decision fl) e,
          ))
      | inl (policy_failed p, e) ↦ inr (
          inr (
            policy_failed p,
            e,
            λ q. absurd (ground arith),
            λ q. absurd (ground arith),
            ap (answer_decision fl) e,
          ))
      | inl (mint_failed, e) ↦ inr (
          inr (
            mint_failed,
            e,
            λ q. absurd (ground arith),
            λ q. absurd (ground arith),
            ap (answer_decision fl) e,
          ))
    ]

    pub handle_decisions-answers :
        (body : Option DecisionsRequest)
        → new ts ≡ inr tenants
        → ((handled body ≡ (write_error 401 "invalid secret_key", []))
            × ((t : Tenant) → Has t ts → t.secret_key ≢ bearer_token r))
          ⊎ ((t : Tenant) × Has t ts
              × (t.secret_key ≡ bearer_token r)
              × (((body ≡ none) × (handled body ≡ (write_error 400 "malformed JSON body", [])))
                  ⊎ ((req : DecisionsRequest) × (body ≡ some req)
                      × ((handled body).1 ≡ (decided t req).1)
                      × AnswersTenant t req (handled body).0)))
    unfolding handle_decisions caller
    handle_decisions-answers body made =
        elim (Option-cases (by_secret_key tenants (bearer_token r))) [
          | inl unknown ↦ inl (
            rw (unknown, handle_decisions) refl,
            λ t held same.
                let reached = (new-keys ts tenants (bearer_token r) t made).0.1 (held, same) in
                absurd (ground arith),
          )
          | inr (t, known) ↦
              let (held, same) = (new-keys ts tenants (bearer_token r) t made).0.0 known in
              inr (
                t,
                held,
                same,
                elim (Option-cases body) [
                  | inl malformed ↦ inl (malformed, rw (known, handle_decisions, malformed) refl)
                  | inr (req, decoded) ↦ inr (
                    req,
                    decoded,
                    rw (known, handle_decisions, decoded) refl,
                    rw (known, handle_decisions, decoded)
                        (answer-AnswersTenant t req (new-IsNamed ts tenants t made held).0),
                  )
                ],
              )
        ]

-- ===== src/Http/OutcomeAnswers.antt =====
-- What the outcome endpoint answers, and what is stored by then.
use ghost_trace.Prelude.{
  ◌≡◌, ◌≢◌, ◌⊎◌, inl, inr, refl, sym, ap, subst, ◌↔◌, ◌∙◌, true, String, List, Option, none, some,
  arith, Bool-cases, Option-cases, ◌==◌, string_comparable,
}
use ghost_trace.Prelude.Int.{ℤ, InInt64, wrap_int64-InInt64, wrap_int64_exact}
use ghost_trace.Tenant.{Tenant, Registry, new, by_secret_key}
use ghost_trace.Tenant.Keys.{Has, new-keys}
use ghost_trace.Decision.{Appended}
use ghost_trace.Decision.Recording.{
  OutcomeInput, OutcomeRecord, OutcomeError, is_valid_outcome, or_now, unix_nano, pass_on,
  record_outcome,
}
use ghost_trace.Http.{Request, WriterCall, sent_status}
use ghost_trace.Http.Auth.{bearer_token, caller, Payload}
use ghost_trace.Http.Decisions.{
  OutcomesRequest, outcome_error, observed_time, answer_outcome, handle_outcomes,
}

pass_on-ok : (a : Appended) → pass_on a ≡ inr tt → a ≡ Appended.written
pass_on-ok Appended.written e = refl
pass_on-ok Appended.unavailable e = ground arith
pass_on-ok Appended.deadline e = ground arith
pass_on-ok Appended.refused e = ground arith

-- What `RecordOutcome` has stored when it reports no error.
record_outcome-ok :
    (observed_now recorded_now : ℤ) (archive : OutcomeRecord → Appended) (i : OutcomeInput)
    → (record_outcome observed_now recorded_now archive i).1 ≡ inr tt
    → (rec : OutcomeRecord) × ((record_outcome observed_now recorded_now archive i).0 ≡ some rec)
      × (archive rec ≡ Appended.written)
      × (rec.tenant_id ≡ i.tenant_id)
      × (rec.evaluation_id ≡ i.evaluation_id)
      × (rec.outcome ≡ i.outcome)
      × (is_valid_outcome rec.outcome ≡ true)
      × (rec.observed_at ≡ unix_nano (or_now observed_now i.observed_at))
unfolding record_outcome
record_outcome-ok observed_now recorded_now archive i e = elim (Bool-cases (i.tenant_id == "")) [
  | inl no_tenant ↦ absurd (ground arith)
  | inr tenant ↦ elim (Bool-cases (i.evaluation_id == "")) [
    | inl no_evaluation ↦ absurd (ground arith)
    | inr evaluation ↦ elim (Bool-cases (is_valid_outcome i.outcome)) [
      | inr unknown ↦ absurd (ground arith)
      | inl valid ↦ (
        record {
          tenant_id = i.tenant_id;
          evaluation_id = i.evaluation_id;
          outcome = i.outcome;
          observed_at = unix_nano (or_now observed_now i.observed_at);
          recorded_at = unix_nano recorded_now;
        },
        rw (tenant, record_outcome, evaluation, valid) refl,
        pass_on-ok (archive _) (rw (tenant, record_outcome, evaluation, valid) at e),
        refl,
        refl,
        refl,
        valid,
        refl,
      )
    ]
  ]
]

unix_nano-exact : (t v : ℤ) → v ≡ unix_nano t → (v ≡ t) ↔ InInt64 t
unfolding unix_nano
unix_nano-exact t v e = (
  λ same. subst InInt64 (sym e ∙ same) (wrap_int64-InInt64 t),
  λ within. e ∙ wrap_int64_exact t within,
)

outcome_error-202 : (e : OutcomeError) → sent_status (outcome_error {A = Unit {0}} e) ≢ 202
unfolding outcome_error sent_status
outcome_error-202 OutcomeError.tenant_required h = omega (arith, h)
outcome_error-202 OutcomeError.evaluation_id_required h = omega (arith, h)
outcome_error-202 OutcomeError.unknown_outcome h = omega (arith, h)
outcome_error-202 OutcomeError.archive_unavailable h = omega (arith, h)
outcome_error-202 OutcomeError.record_failed h = omega (arith, h)

answer_outcome-202 :
    (result : OutcomeError ⊎ Unit {0}) → sent_status (answer_outcome result) ≡ 202 → result ≡ inr tt
unfolding outcome_error sent_status
answer_outcome-202 (inl e) h = absurd (outcome_error-202 e h)
answer_outcome-202 (inr tt) h = refl

or_now-given :
    (now : ℤ) (observed_at : Option ℤ) (at_time : ℤ)
    → ◌≡◌ {A = Option (Option ℤ)} (some observed_at) (some (some at_time))
    → or_now now observed_at ≡ at_time
or_now-given now none at_time e = absurd (ground arith)
or_now-given now (some t) at_time e = ground arith

module _ (ts : List Tenant) (tenants : Registry) (parse_time : String → Option (Option ℤ))
    (observed_now recorded_now : ℤ) (archive : OutcomeRecord → Appended) (r : Request) where
  abbrev pub labelled :
      Option OutcomesRequest → List (WriterCall (Payload (Unit {0}))) × Option OutcomeRecord
  labelled body = handle_outcomes tenants parse_time observed_now recorded_now archive r body

  -- Under a registry that `New` accepted, an outcome is answered 202 only if it is stored: the
  -- archive accepted a record of it, under the tenant whose secret key the request presented, with
  -- a label of the enumeration. Where the request gives a time, the record has that time exactly
  -- when the time's nanoseconds since 1970 are in the range of an int64: an answer of 202 to a
  -- time outside of it stands for a record of another time.
  pub handle_outcomes-recorded :
      (body : Option OutcomesRequest)
      → new ts ≡ inr tenants
      → sent_status (labelled body).0 ≡ 202
      → (t : Tenant) × (req : OutcomesRequest) × (rec : OutcomeRecord) × Has t ts
        × (t.secret_key ≡ bearer_token r)
        × (body ≡ some req)
        × ((labelled body).1 ≡ some rec)
        × (archive rec ≡ Appended.written)
        × (rec.tenant_id ≡ t.id)
        × (rec.evaluation_id ≡ req.evaluation_id)
        × (rec.outcome ≡ req.outcome)
        × (is_valid_outcome rec.outcome ≡ true)
        × ((at_time : ℤ)
            → observed_time parse_time req.observed_at ≡ some (some at_time)
            → (rec.observed_at ≡ at_time) ↔ InInt64 at_time)
  unfolding handle_outcomes caller sent_status
  handle_outcomes-recorded body made e =
      elim (Option-cases (by_secret_key tenants (bearer_token r))) [
        | inl unknown ↦ absurd (omega (arith, rw (unknown, handle_outcomes) at e))
        | inr (t, known) ↦ elim (Option-cases body) [
          | inl malformed ↦ absurd (omega (arith, rw (known, handle_outcomes, malformed) at e))
          | inr (req, decoded) ↦ elim (Option-cases (observed_time parse_time req.observed_at)) [
            | inl no_time ↦
                absurd (omega (arith, rw (known, handle_outcomes, decoded, no_time) at e))
            | inr (observed_at, given) ↦
                let i : OutcomeInput = record {
                  tenant_id = t.id;
                  evaluation_id = req.evaluation_id;
                  outcome = req.outcome;
                  observed_at = observed_at;
                } in
                let (held, same) = (new-keys ts tenants (bearer_token r) t made).0.0 known in
                let (rec, stored, written, whose, which, what, valid, seen) =
                  record_outcome-ok observed_now recorded_now archive i (
                    answer_outcome-202 (record_outcome observed_now recorded_now archive i).1
                      (rw (known, handle_outcomes, decoded, given) at e)) in
                (
                  t,
                  req,
                  rec,
                  held,
                  same,
                  decoded,
                  rw (known, handle_outcomes, decoded, given) stored,
                  written,
                  whose,
                  which,
                  what,
                  valid,
                  λ at_time told. unix_nano-exact at_time rec.observed_at (
                      seen
                      ∙ ap unix_nano
                          (or_now-given observed_now observed_at at_time (sym given ∙ told))),
                )
          ]
        ]
      ]

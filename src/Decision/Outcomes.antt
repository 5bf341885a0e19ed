-- ===== src/Decision/Outcomes.antt =====
-- An outcome is confirmed exactly when its record is durable.
use ghost_trace.Prelude.{◌≡◌, ◌≢◌, ◌⊎◌, ◌↔◌, inr, arith, true, none, some, string_comparable}
use ghost_trace.Prelude.Int.{ℤ}
use ghost_trace.Decision.{Appended}
use ghost_trace.Decision.Recording.{
  OutcomeInput, OutcomeRecord, is_valid_outcome, or_now, unix_nano, pass_on, record_outcome,
}

-- The record of an outcome.
abbrev pub recorded : ℤ → ℤ → OutcomeInput → OutcomeRecord
recorded observed_now recorded_now i = record {
  tenant_id = i.tenant_id;
  evaluation_id = i.evaluation_id;
  outcome = i.outcome;
  observed_at = unix_nano (or_now observed_now i.observed_at);
  recorded_at = unix_nano recorded_now;
}

pass_on_lem : (a : Appended) → (pass_on a ≡ inr tt) ↔ (a ≡ Appended.written)
pass_on_lem a = ground arith

-- `RecordOutcome` succeeds exactly when the tenant and the evaluation are named, the outcome is
-- one of the declared ones, and the archive reports the record as written; and it asks the
-- archive either for that record, or for nothing, and then it fails.
pub record_outcome-durable :
    (observed_now recorded_now : ℤ) (archive : OutcomeRecord → Appended) (i : OutcomeInput)
    → (((record_outcome observed_now recorded_now archive i).1 ≡ inr tt) ↔ (
        (i.tenant_id ≢ "")
        × (i.evaluation_id ≢ "")
        × (is_valid_outcome i.outcome ≡ true)
        × (archive (recorded observed_now recorded_now i) ≡ Appended.written)))
      × (((record_outcome observed_now recorded_now archive i).0
            ≡ some (recorded observed_now recorded_now i))
          ⊎ (((record_outcome observed_now recorded_now archive i).0 ≡ none)
              × ((record_outcome observed_now recorded_now archive i).1 ≢ inr tt)))
unfolding record_outcome
record_outcome-durable observed_now recorded_now archive i = ground (
  arith,
  string_comparable.same_iff i.tenant_id "",
  string_comparable.same_iff i.evaluation_id "",
  pass_on_lem (archive (recorded observed_now recorded_now i)),
)

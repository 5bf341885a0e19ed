-- ===== src/Decision/Recording.antt =====
-- outcome.go: `RecordOutcome`, the label that a tenant reports for a decision.
use ghost_trace.Prelude.{
  Bool, ◌||◌, String, Option, none, some, ◌==◌, string_comparable, if◌then◌else◌, ◌⊎◌, inl, inr,
}
use ghost_trace.Prelude.Int.{ℤ, wrap_int64}
use ghost_trace.Decision.{Appended}

-- The outcomes that `RecordOutcome` takes.
unfoldable pub is_valid_outcome : String → Bool
is_valid_outcome o =
    o == "login_success"
    || o == "login_failure"
    || o == "challenge_passed"
    || o == "challenge_failed"
    || o == "fraud_confirmed"
    || o == "user_appealed"
    || o == "abandoned"

-- `UnixNano`: the nanoseconds since the epoch in an int64, which wraps.
unfoldable pub unix_nano : ℤ → ℤ
unix_nano t = wrap_int64 t

-- A time is an integer of nanoseconds since the epoch, of any size; a zero time is `none`.
pub record OutcomeInput : Type 0 where
  pub tenant_id : String
  pub evaluation_id : String
  pub outcome : String
  pub observed_at : Option ℤ

-- The archived record.
pub record OutcomeRecord : Type 0 where
  pub tenant_id : String
  pub evaluation_id : String
  pub outcome : String
  pub observed_at : ℤ
  pub recorded_at : ℤ

pub data OutcomeError : Type 0 where
  tenant_required : OutcomeError
  evaluation_id_required : OutcomeError
  unknown_outcome : OutcomeError
  archive_unavailable : OutcomeError
  record_failed : OutcomeError

abbrev pub or_now : ℤ → Option ℤ → ℤ
or_now now none = now
or_now now (some t) = t

-- How the archive's answer to the Append is passed on.
abbrev pub pass_on : Appended → OutcomeError ⊎ Unit {0}
pass_on Appended.written = inr tt
pass_on Appended.unavailable = inl OutcomeError.archive_unavailable
pass_on _ = inl OutcomeError.record_failed

-- `RecordOutcome` with its two readings of the clock: the record that it asks the archive to
-- append, if it gets there, and its error.
unfoldable pub record_outcome :
    ℤ
    → ℤ
    → (OutcomeRecord → Appended)
    → OutcomeInput
    → Option OutcomeRecord × (OutcomeError ⊎ Unit {0})
record_outcome observed_now recorded_now archive i =
    if i.tenant_id == ""
    then (none, inl OutcomeError.tenant_required)
    else if i.evaluation_id == ""
    then (none, inl evaluation_id_required)
    else if is_valid_outcome i.outcome
    then (some rec, pass_on (archive rec))
    else (none, inl unknown_outcome)
  where
    rec : OutcomeRecord
    rec = record {
      tenant_id = i.tenant_id;
      evaluation_id = i.evaluation_id;
      outcome = i.outcome;
      observed_at = unix_nano (or_now observed_now i.observed_at);
      recorded_at = unix_nano recorded_now;
    }

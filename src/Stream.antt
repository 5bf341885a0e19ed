-- ===== src/Stream.antt =====
-- libs/eventstream/eventstream.go and streamarchive.go: the subjects of the event stream, and the
-- record that travels on it. The bytes of a message, their hash and the broker are arguments.
mod Tests
mod BucketTests
pub mod Subjects
pub mod Archive
pub mod Publishing
pub mod Consume
pub mod Received
pub mod Acknowledged
pub mod Archiving
pub mod Keys
pub mod Isolation
pub mod Answered
pub mod Progress
use ghost_trace.Prelude.{
  ℕ, Bool, ◌||◌, List, [], ◌∷◌, ◌++◌, map, Option, none, some, ◌==◌, ℕ_comparable, bytes_comparable,
  if◌then◌else◌,
}
use ghost_trace.Prelude.Text.{Text, codes}

pub data Kind : Type 0 where
  session telemetry evaluation outcome : Kind

-- The text of a kind, which is the string that the type is in the source.
abbrev pub kind_text : Kind → Text
kind_text Kind.session = codes "session"
kind_text Kind.telemetry = codes "telemetry"
kind_text Kind.evaluation = codes "evaluation"
kind_text Kind.outcome = codes "outcome"

abbrev pub kinds : List Kind
kinds = Kind.session ∷ Kind.telemetry ∷ Kind.evaluation ∷ Kind.outcome ∷ []

-- The entries of `kindByMessageType`.
abbrev pub kind_by_message_type : List (Text × Kind)
kind_by_message_type =
    (codes "ghosttrace.events.v1.SessionStart", Kind.session)
    ∷ (codes "ghosttrace.events.v1.TelemetryBatch", Kind.telemetry)
    ∷ (codes "ghosttrace.events.v1.Evaluation", Kind.evaluation)
    ∷ (codes "ghosttrace.events.v1.Outcome", Kind.outcome)
    ∷ []

unfoldable pub kind_in : List (Text × Kind) → Text → Option Kind
kind_in [] message_type = none
kind_in ((t, k) ∷ rest) message_type =
    if message_type == t then some k else kind_in rest message_type

-- `none` is ErrUnknownMessageType.
abbrev pub kind_for : Text → Option Kind
kind_for = kind_in kind_by_message_type

-- The one-byte replacements of `strings.NewReplacer`.
abbrev pub replace_byte : ℕ → ℕ
replace_byte c = if c == b'.' || c == b'*' || c == b'>' || c == b' ' then b'_' else c

unfoldable pub sanitize_token : Text → Text
sanitize_token [] = codes "unknown"
sanitize_token (c ∷ cs) = map replace_byte (c ∷ cs)

abbrev pub subject_prefix : Text
subject_prefix = codes "gt.events.v1"

unfoldable pub subject : Kind → Text → Text
subject kind tenant = subject_prefix ++ (b'.' ∷ kind_text kind ++ (b'.' ∷ sanitize_token tenant))

abbrev pub subject_filter : Kind → Text
subject_filter kind = subject_prefix ++ (b'.' ∷ kind_text kind ++ codes ".*")

abbrev pub all_subjects : Text
all_subjects = subject_prefix ++ codes ".>"

-- The place of a session's snapshot in the bucket.
unfoldable pub session_key : Text → Text → Text
session_key tenant token = sanitize_token tenant ++ (b'.' ∷ sanitize_token token)

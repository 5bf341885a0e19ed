-- ===== src/Stream/Progress.antt =====
-- libs/eventstream/jetstream.go: `Stats` and the `read` of pollStats, which asks the broker three
-- times how far behind the consumer is. A time is a number of nanoseconds.
use ghost_trace.Prelude.{ℕ, Bool, Option, none, some, ltb, if◌then◌else◌}
use ghost_trace.Prelude.Int.{ℤ, pos, sub_ℕ}

pub record Stats : Type 0 where
  pub pending : ℕ
  pub ack_pending : ℤ
  pub redelivered : ℤ
  pub oldest_age : ℤ
  pub max_age : ℤ
  pub first_seq : ℕ
  pub last_seq : ℕ

-- What the program reads of the client's ConsumerInfo and StreamInfo; a FirstTime that IsZero is
-- `none`.
pub record ConsumerInfo : Type 0 where
  pub num_pending : ℕ
  pub num_ack_pending : ℤ
  pub num_redelivered : ℤ

pub record StreamInfo : Type 0 where
  pub first_time : Option ℕ
  pub msgs : ℕ
  pub max_age : ℤ
  pub first_seq : ℕ
  pub last_seq : ℕ

-- The broker's answers of one poll, `none` for an error, and the clock's reading of `time.Since`.
pub record BrokerPoll : Type 0 where
  pub consumer_info : Option ConsumerInfo
  pub stream_found : Bool
  pub stream_info : Option StreamInfo
  pub now : ℕ

unfoldable pub oldest_age_of : StreamInfo → ℕ → ℤ
oldest_age_of si now = elim si.first_time [
  | some first ↦ if ltb 0 si.msgs then sub_ℕ now first else pos 0
  | none ↦ pos 0
]

unfoldable pub stats_of : ConsumerInfo → StreamInfo → ℕ → Stats
stats_of info si now = record {
  pending = info.num_pending;
  ack_pending = info.num_ack_pending;
  redelivered = info.num_redelivered;
  oldest_age = oldest_age_of si now;
  max_age = si.max_age;
  first_seq = si.first_seq;
  last_seq = si.last_seq;
}

-- What is reported: `none` is an error, with empty Stats.
unfoldable pub read : BrokerPoll → Option Stats
read p = elim p.consumer_info [
  | none ↦ none
  | some info ↦
      if p.stream_found
      then elim p.stream_info [ none ↦ none | some si ↦ some (stats_of info si p.now) ]
      else none
]

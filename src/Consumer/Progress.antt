-- ===== src/Consumer/Progress.antt =====
-- services/archive/internal/adapters/archivemeter/archivemeter.go: the gauges of the archive's
-- progress, and `onStats` of services/archive/cmd/archive/main.go, which sets them on each reading of
-- the broker. The counters that HandleBatch moves are in the list of the consumer's meter.
use ghost_trace.Prelude.{ℕ, ◌+◌, ◌-◌, ◌/◌, ◌%◌, Option, none, some, ltb, eqb, if◌then◌else◌}
use ghost_trace.Prelude.Int.{ℤ, pos, negsuc, sub_ℕ}
use ghost_trace.Prelude.Float.{Float64}
use ghost_trace.Stream.Progress.{Stats}
use ghost_trace.Substrate.{Position}
use ghost_trace.Substrate.Read.{unaccounted, PositionRead, failed, fresh, found}

-- The seven series of the durable position, which ObservePosition sets together.
pub record PositionSeries (F : Type 0) : Type 0 where
  pub pos_first : F
  pub pos_highest : F
  pub pos_committed : F
  pub pos_rejected : F
  pub pos_unaccount : F
  pub pos_duplicate : F
  pub pos_rows : F

-- A series that has not been made is `none`.
pub record Gauges (F : Type 0) : Type 0 where
  pub pending : F
  pub ack_pending : F
  pub redelivered : F
  pub observed : F
  pub read_failures : ℕ
  pub oldest_age : F
  pub max_age : F
  pub first_seq : F
  pub last_seq : F
  pub skipped : Option F
  pub position : Option (PositionSeries F)
  pub position_read_failures : ℕ

module _ {F : Type 0} (fl : Float64 F) where
  abbrev zero_gauge : F
  zero_gauge = fl.of_int (pos 0)

  abbrev pub new_gauges : Gauges F
  new_gauges = record {
    pending = zero_gauge;
    ack_pending = zero_gauge;
    redelivered = zero_gauge;
    observed = zero_gauge;
    read_failures = 0;
    oldest_age = zero_gauge;
    max_age = zero_gauge;
    first_seq = zero_gauge;
    last_seq = zero_gauge;
    skipped = none;
    position = none;
    position_read_failures = 0;
  }

  -- `Duration.Seconds`: the whole seconds, and the rest of the nanoseconds.
  abbrev seconds : ℤ → F
  seconds (pos n) =
      fl.add (fl.of_int (pos (n / 1000000000)))
        (fl.div (fl.of_int (pos (n % 1000000000))) (fl.literal 1000000000 1))
  seconds (negsuc n) =
      fl.add (fl.of_int (sub_ℕ 0 ((n + 1) / 1000000000)))
        (fl.div (fl.of_int (sub_ℕ 0 ((n + 1) % 1000000000))) (fl.literal 1000000000 1))

  -- `unix` is the clock in seconds.
  unfoldable pub observe : ℕ → Option Stats → Gauges F → Gauges F
  observe unix none m = record m { read_failures = m.read_failures + 1 }
  observe unix (some s) m = record m {
    pending = fl.of_int (pos s.pending);
    ack_pending = fl.of_int s.ack_pending;
    redelivered = fl.of_int s.redelivered;
    oldest_age = seconds s.oldest_age;
    max_age = seconds s.max_age;
    first_seq = fl.of_int (pos s.first_seq);
    last_seq = fl.of_int (pos s.last_seq);
    observed = fl.of_int (pos unix);
  }

  abbrev pub series_of : Position → ℕ → PositionSeries F
  series_of p rows = record {
    pos_first = fl.of_int (pos p.first_seq);
    pos_highest = fl.of_int (pos p.highest_seq);
    pos_committed = fl.of_int (pos p.committed);
    pos_rejected = fl.of_int (pos p.rejected);
    pos_unaccount = fl.of_int (unaccounted p);
    pos_duplicate = fl.of_int (pos p.duplicates);
    pos_rows = fl.of_int (pos rows);
  }

  unfoldable pub observe_position : PositionRead → Gauges F → Gauges F
  observe_position failed m = record m { position_read_failures = m.position_read_failures + 1 }
  observe_position fresh m = m
  observe_position (found p rows) m = record m { position = some (series_of p rows) }

  -- uint64 addition and subtraction, which wrap. Called only with a position, `ok` being true.
  unfoldable pub observe_skipped : ℕ → Position → Gauges F → Gauges F
  observe_skipped stream_first p m =
      if eqb stream_first 0
      then m
      else let next = (p.highest_seq + 1) % 18446744073709551616 in
        if ltb next stream_first
        then record m { skipped = some (fl.of_int (pos (stream_first - next))) }
        else record m { skipped = some zero_gauge }

  -- The reading of the broker if there is one, and the position that was read.
  unfoldable pub skip_reading : Option Stats → PositionRead → Gauges F → Gauges F
  unfolding observe_skipped
  skip_reading (some st) (found p rows) m = observe_skipped st.first_seq p m
  skip_reading (some st) failed m = m
  skip_reading (some st) fresh m = m
  skip_reading none read m = m

  unfoldable pub on_stats : ℕ → Option Stats → PositionRead → Gauges F → Gauges F
  on_stats unix reading read m =
      skip_reading reading read (observe_position read (observe unix reading m))

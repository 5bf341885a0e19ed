-- ===== src/Consumer/ProgressTests.antt =====
-- Three ticks of the archive's poll: one before it has a position, one with, and one whose read fails.
use ghost_trace.Prelude.{◌≡◌, refl, arith, true, false, some, none, [], ◌∷◌, ◌++◌}
use ghost_trace.Prelude.Int.{pos}
use ghost_trace.Prelude.FixedPoint.{fixed_point}
use ghost_trace.Stream.Progress.{Stats}
use ghost_trace.Substrate.{Position, Substrate}
use ghost_trace.Substrate.Read.{count, position_and_count}
use ghost_trace.Consumer.Progress.{
  new_gauges, series_of, observe, observe_position, observe_skipped, skip_reading, on_stats,
}
use ghost_trace.Consumer.Skipped.{Tick, no_begin, ticks, durable, ticks-latest}

abbrev empty_store : Substrate
empty_store = record { db = record { events = []; position = none }; blobs = [] }

abbrev walked : Position
walked = record { first_seq = 3; highest_seq = 9; committed = 5; rejected = 1; duplicates = 2 }

abbrev walked_store : Substrate
walked_store = record { db = record { events = []; position = some walked }; blobs = [] }

-- The stream has discarded the sequences 10, 11 and 12.
abbrev reading : Stats
reading = record {
  pending = 4;
  ack_pending = pos 1;
  redelivered = pos 0;
  oldest_age = pos 2000000000;
  max_age = pos 9000000000;
  first_seq = 13;
  last_seq = 20;
}

abbrev second : Tick
second = record {
  unix = 60;
  reading = some reading;
  begin_ok = true;
  position_ok = true;
  count_ok = true;
  store = walked_store;
}

abbrev first : Tick
first = record second { unix = 45; store = empty_store }

abbrev third : Tick
third = record second { unix = 75; begin_ok = false }

skipped_now :
    (ticks fixed_point (first ∷ second ∷ third ∷ []) (new_gauges fixed_point)).skipped ≡ some 3000
unfolding ticks on_stats position_and_count skip_reading observe_skipped observe_position observe
skipped_now = refl

ticks-latest_example :
    durable fixed_point
      (ticks fixed_point ((first ∷ []) ++ (second ∷ third ∷ [])) (new_gauges fixed_point))
    ≡ (some 3000, some (series_of fixed_point walked (count walked_store)))
ticks-latest_example =
    ticks-latest fixed_point (first ∷ []) (third ∷ []) second reading walked
      (record {
        has_reading = refl;
        did_begin = refl;
        did_position = refl;
        did_count = refl;
        has_position = refl;
        has_first = omega arith;
        in_range = omega arith;
      })
      (no_begin refl, tt)

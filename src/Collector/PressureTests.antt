-- ===== src/Collector/PressureTests.antt =====
-- A watcher's polls of a broker that goes away, and two records under them.
use ghost_trace.Prelude.{ℕ, ◌+◌, ◌≤◌, ◌<◌, ◌≡◌, refl, arith, true, false, none, some, List, [], ◌∷◌}
use ghost_trace.Prelude.Int.{pos}
use ghost_trace.Prelude.FixedPoint.{fixed_point}
use ghost_trace.Stream.Progress.{
  ConsumerInfo, StreamInfo, BrokerPoll, oldest_age_of, stats_of, read,
}
use ghost_trace.Decision.{Appended}
use ghost_trace.Collector.Batch.{TelemetryBatch, Outside, build_telemetry_batch}
use ghost_trace.Collector.Start.{SessionStart, StartOutside}
use ghost_trace.Collector.Tests.{to_tenths, of_tenths, envelope, outside}
use ghost_trace.Collector.Pressure.{stale, no_reading, observe, level, watch}
use ghost_trace.Collector.Readings.{no_consumer, no_stream, AreShed, AreOffered, archive-pressure}

abbrev backlog : ConsumerInfo
backlog = record { num_pending = 12; num_ack_pending = pos 3; num_redelivered = pos 0 }

-- The oldest of five messages has used nine tenths of the window.
abbrev held : StreamInfo
held = record { first_time = some 100; msgs = 5; max_age = pos 1000; first_seq = 8; last_seq = 12 }

abbrev answered : BrokerPoll
answered = record {
  consumer_info = some backlog;
  stream_found = true;
  stream_info = some held;
  now = 1000;
}

abbrev unanswered : BrokerPoll
unanswered = record answered { consumer_info = none }

abbrev stream_gone : BrokerPoll
stream_gone = record answered { stream_found = false }

abbrev polls : List (BrokerPoll × ℕ)
polls = (unanswered, 900) ∷ (answered, 1001) ∷ (stream_gone, 2000) ∷ (unanswered, 3000) ∷ []

abbrev start_outside : StartOutside ℕ
start_outside = record {
  new_token = some "st_8";
  new_id = some "s_8";
  started_at = 4000;
  created_at = 4001;
  pressure = level fixed_point 4000 (watch fixed_point polls (no_reading fixed_point));
  append_answer = Appended.written;
}

abbrev batch_outside : Outside ℕ
batch_outside = record outside { pressure = start_outside.pressure }

abbrev sample_start : SessionStart
sample_start = record {
  tenant_id = "acme";
  session_id = "s_8";
  started_at = 4000;
  page_path = "/signup";
  pointer_type = "touch";
  touch = true;
  viewport_w = 390;
  viewport_h = 844;
  tz_offset_min = pos 180;
  reduced_motion = false;
}

abbrev sample_batch : TelemetryBatch
sample_batch = build_telemetry_batch envelope "acme" "s_8" 52

level_now : level fixed_point 4000 (watch fixed_point polls (no_reading fixed_point)) ≡ 900
unfolding level watch observe read stats_of oldest_age_of
level_now = refl

archive-pressure_example :
    (4000 ≤ 1001 + stale
      → true ≡ true
      → AreShed fixed_point to_tenths of_tenths start_outside batch_outside sample_start
          sample_batch)
    × (4000 ≤ 1001 + stale
        → true ≡ false
        → AreOffered fixed_point to_tenths of_tenths start_outside batch_outside sample_start
            sample_batch)
    × (1001 + stale < 4000
        → AreOffered fixed_point to_tenths of_tenths start_outside batch_outside sample_start
            sample_batch)
unfolding level watch oldest_age_of
archive-pressure_example =
    archive-pressure fixed_point to_tenths of_tenths ((unanswered, 900) ∷ [])
      ((stream_gone, 2000) ∷ (unanswered, 3000) ∷ []) answered held 1001 4000 start_outside
      batch_outside sample_start sample_batch
      (record {
        info = backlog;
        has_info = refl;
        has_stream = refl;
        has_stream_info = refl;
        has_window = omega arith;
      })
      (no_stream refl, (no_consumer refl, tt)) refl refl refl

-- ===== src/Collector/Readings.antt =====
-- The archive's pressure over a watcher's polls, and what is handed to the archive under it.
use ghost_trace.Prelude.{
  ℕ, ◌+◌, ◌<◌, ◌≤◌, ◌≡◌, ◌∙◌, refl, arith, none, some, List, [], ◌∷◌, ◌++◌, All, true, false,
}
use ghost_trace.Prelude.Int.{pos_part}
use ghost_trace.Prelude.Float.{Float64}
use ghost_trace.Stream.Progress.{
  ConsumerInfo, StreamInfo, BrokerPoll, oldest_age_of, stats_of, read,
}
use ghost_trace.Collector.Pressure.{Pressure, stale, unknown, no_reading, observe, level, watch}
use ghost_trace.Collector.Start.{
  SessionStart, StartOutside, append_start, start_count, archive_start, start_dropped,
}
use ghost_trace.Collector.Batch.{
  TelemetryBatch, Outside, shed, telemetry, append_batch, count_dropped, count_of, archive_batch,
}

-- A poll that says nothing: one of the broker's three answers is an error, or the stream has no
-- retention window.
pub data IsUnusable (p : BrokerPoll) : Type 0 where
  no_consumer : p.consumer_info ≡ none → IsUnusable p
  no_stream : p.stream_found ≡ false → IsUnusable p
  no_stream_info : p.stream_info ≡ none → IsUnusable p
  no_window : (si : StreamInfo) → p.stream_info ≡ some si → pos_part si.max_age ≡ 0 → IsUnusable p

-- A poll with its three answers and a retention window.
pub record IsUsable (p : BrokerPoll) (si : StreamInfo) : Type 0 where
  pub info : ConsumerInfo
  pub has_info : p.consumer_info ≡ some info
  pub has_stream : p.stream_found ≡ true
  pub has_stream_info : p.stream_info ≡ some si
  pub has_window : 0 < pos_part si.max_age

module _ {F : Type 0} (fl : Float64 F) where
  -- The fraction of the retention window that a poll's oldest message has used.
  abbrev pub used : BrokerPoll → StreamInfo → F
  used b si = fl.div (fl.of_int (oldest_age_of si b.now)) (fl.of_int si.max_age)

  observe_unusable :
      (p : BrokerPoll) (at : ℕ) (q : Pressure F) → IsUnusable p → observe fl at (read p) q ≡ q
  unfolding observe read stats_of
  observe_unusable p at q (no_consumer e) = ground (arith, e)
  observe_unusable p at q (no_stream e) = ground (arith, e)
  observe_unusable p at q (no_stream_info e) = ground (arith, e)
  observe_unusable p at q (no_window si e w) = ground (arith, e, w)

  watch_unusable :
      (ps : List (BrokerPoll × ℕ)) (q : Pressure F)
      → All (λ x. IsUnusable x.0) ps
      → watch fl ps q ≡ q
  unfolding watch
  watch_unusable [] q u = refl
  watch_unusable ((b, at) ∷ bs) q u = rw (observe_unusable b at q u.0) (watch_unusable bs q u.1)

  watch-append :
      (ps qs : List (BrokerPoll × ℕ)) (q : Pressure F)
      → watch fl (ps ++ qs) q ≡ watch fl qs (watch fl ps q)
  unfolding watch
  watch-append [] qs q = refl
  watch-append ((b, at) ∷ bs) qs q = watch-append bs qs (observe fl at (read b) q)

  observe_usable :
      (p : BrokerPoll) (si : StreamInfo) (at : ℕ) (q : Pressure F)
      → IsUsable p si
      → observe fl at (read p) q ≡ record { reading = used p si; read_at = some at }
  unfolding observe read stats_of
  observe_usable p si at q u =
      ground (arith, u.has_info, u.has_stream, u.has_stream_info, u.has_window)

  -- After a usable poll that was observed at `at`, and polls that say nothing after it, whatever the
  -- polls before it said: up to `stale` later the level is the fraction of the retention window that
  -- the poll's oldest message has used, and from then on it is `unknown`.
  pub level-latest :
      (earlier later : List (BrokerPoll × ℕ)) (b : BrokerPoll) (si : StreamInfo) (at now : ℕ)
      → IsUsable b si
      → All (λ x. IsUnusable x.0) later
      → (now ≤ at + stale
          → level fl now (watch fl (earlier ++ ((b, at) ∷ later)) (no_reading fl)) ≡ used b si)
        × (at + stale < now
            → level fl now (watch fl (earlier ++ ((b, at) ∷ later)) (no_reading fl)) ≡ unknown fl)
  unfolding watch level
  level-latest earlier later b si at now u rest =
      let before = watch fl earlier (no_reading fl) in
      let e = watch-append earlier ((b, at) ∷ later) (no_reading fl) in
      let e2 = watch_unusable later (observe fl at (read b) before) rest in
      let e3 = observe_usable b si at before u in
      rw (e, e2, e3) (λ soon. ground (arith, soon), λ after. ground (arith, after))

  pub level_unread :
      (ps : List (BrokerPoll × ℕ)) (now : ℕ)
      → All (λ x. IsUnusable x.0) ps
      → level fl now (watch fl ps (no_reading fl)) ≡ unknown fl
  unfolding level
  level_unread ps now u = rw (watch_unusable ps (no_reading fl) u) refl

-- What the collector does with the two records of its use cases: they are shed, or handed to the
-- archive.
module _ {F G : Type 0} (fl : Float64 F) (narrow : F → G) (widen : G → F) where
  unfoldable pub AreShed : StartOutside F → Outside F → SessionStart → TelemetryBatch → Type 0
  AreShed o x start batch =
      (archive_start fl o start ≡ start_dropped shed ∷ [])
      × (archive_batch fl narrow widen x batch ≡ count_dropped telemetry shed ∷ [])

  unfoldable pub AreOffered : StartOutside F → Outside F → SessionStart → TelemetryBatch → Type 0
  AreOffered o x start batch =
      (archive_start fl o start ≡ append_start start ∷ start_count o.append_answer)
      × (archive_batch fl narrow widen x batch
          ≡ append_batch batch ∷ count_of telemetry x.append_answer)

  are_shed :
      (o : StartOutside F) (x : Outside F) (start : SessionStart) (batch : TelemetryBatch) (v : F)
      → o.pressure ≡ v
      → x.pressure ≡ v
      → fl.le (fl.literal 8 10) v ≡ true
      → AreShed o x start batch
  unfolding AreShed archive_start archive_batch
  are_shed o x start batch v eo ex high = (ground (arith, eo, high), ground (arith, ex, high))

  are_offered :
      (o : StartOutside F) (x : Outside F) (start : SessionStart) (batch : TelemetryBatch) (v : F)
      → o.pressure ≡ v
      → x.pressure ≡ v
      → fl.le (fl.literal 8 10) v ≡ false
      → AreOffered o x start batch
  unfolding AreOffered archive_start archive_batch
  are_offered o x start batch v eo ex low = (ground (arith, eo, low), ground (arith, ex, low))

  -- Under the level that a watcher of the stream has, where its last usable poll was observed at
  -- `at` and the polls after it say nothing: up to `stale` after `at`, the records of a new session
  -- and of a telemetry batch are shed when the poll's fraction of the window reaches 8/10, and
  -- handed to the archive when it does not; later than that they are handed to the archive whatever
  -- the poll said. The hypothesis on `unknown` is that -1 is not 8/10 or more.
  pub archive-pressure :
      (earlier later : List (BrokerPoll × ℕ)) (b : BrokerPoll) (si : StreamInfo) (at now : ℕ)
      (o : StartOutside F) (x : Outside F) (start : SessionStart) (batch : TelemetryBatch)
      → IsUsable b si
      → All (λ p. IsUnusable p.0) later
      → fl.le (fl.literal 8 10) (unknown fl) ≡ false
      → o.pressure ≡ level fl now (watch fl (earlier ++ ((b, at) ∷ later)) (no_reading fl))
      → x.pressure ≡ level fl now (watch fl (earlier ++ ((b, at) ∷ later)) (no_reading fl))
      → (now ≤ at + stale → fl.le (fl.literal 8 10) (used fl b si) ≡ true → AreShed o x start batch)
        × (now ≤ at + stale
            → fl.le (fl.literal 8 10) (used fl b si) ≡ false
            → AreOffered o x start batch)
        × (at + stale < now → AreOffered o x start batch)
  archive-pressure earlier later b si at now o x start batch u rest negative eo ex =
      let (fresh, old) = level-latest fl earlier later b si at now u rest in
      (
        λ soon high.
            are_shed o x start batch (used fl b si) (eo ∙ fresh soon) (ex ∙ fresh soon) high,
        λ soon low.
            are_offered o x start batch (used fl b si) (eo ∙ fresh soon) (ex ∙ fresh soon) low,
        λ after.
            are_offered o x start batch (unknown fl) (eo ∙ old after) (ex ∙ old after) negative,
      )

-- ===== src/Consumer/Skipped.antt =====
-- The gauges of the archive's progress over the ticks of its poll.
use ghost_trace.Prelude.{
  ℕ, ◌+◌, ◌-◌, ◌<◌, ◌≡◌, refl, arith, Bool, true, false, Option, none, some, List, [], ◌∷◌, ◌++◌,
  All, ◌∙◌, ap, ◌⊎◌, inl, inr, ltb, eqb, ◌%◌, Bool-cases,
}
use ghost_trace.Prelude.Int.{pos}
use ghost_trace.Prelude.Float.{Float64}
use ghost_trace.Stream.Progress.{Stats}
use ghost_trace.Substrate.{Position, Substrate}
use ghost_trace.Substrate.Read.{count, PositionRead, failed, fresh, found, position_and_count}
use ghost_trace.Consumer.Progress.{
  Gauges, PositionSeries, new_gauges, series_of, observe, observe_position, observe_skipped,
  skip_reading, on_stats,
}

-- One call of onStats: the clock in seconds, the broker's reading, and the store with its answers to
-- BeginTx and to the two queries.
pub record Tick : Type 0 where
  pub unix : ℕ
  pub reading : Option Stats
  pub begin_ok : Bool
  pub position_ok : Bool
  pub count_ok : Bool
  pub store : Substrate

abbrev pub read_at : Tick → PositionRead
read_at t = position_and_count t.begin_ok t.position_ok t.count_ok t.store

-- A tick at which no position was read: a query failed, or the archive has recorded nothing yet.
pub data IsUnread (t : Tick) : Type 0 where
  no_begin : t.begin_ok ≡ false → IsUnread t
  no_row : t.position_ok ≡ false → IsUnread t
  no_count : t.count_ok ≡ false → IsUnread t
  no_position : t.store.db.position ≡ none → IsUnread t

-- A tick with the broker's reading of a stream that has a first sequence, and a position below the
-- last uint64.
pub record IsRead (t : Tick) (st : Stats) (p : Position) : Type 0 where
  pub has_reading : t.reading ≡ some st
  pub did_begin : t.begin_ok ≡ true
  pub did_position : t.position_ok ≡ true
  pub did_count : t.count_ok ≡ true
  pub has_position : t.store.db.position ≡ some p
  pub has_first : 0 < st.first_seq
  pub in_range : p.highest_seq + 1 < 18446744073709551616

read_at-read :
    (t : Tick) (st : Stats) (p : Position) → IsRead t st p → read_at t ≡ found p (count t.store)
unfolding position_and_count
read_at-read t st p r = ground (arith, r.did_begin, r.did_position, r.did_count, r.has_position)

read_at-unread : (t : Tick) → IsUnread t → (read_at t ≡ failed) ⊎ (read_at t ≡ fresh)
unfolding position_and_count
read_at-unread t (no_begin e) = inl (ground (arith, e))
read_at-unread t (no_row e) = inl (ground (arith, e))
read_at-unread t (no_count e) = ground (arith, e)
read_at-unread t (no_position e) = ground (arith, e)

module _ {F : Type 0} (fl : Float64 F) where
  unfoldable pub ticks : List Tick → Gauges F → Gauges F
  unfolding on_stats
  ticks [] m = m
  ticks (t ∷ ts) m = ticks ts (on_stats fl t.unix t.reading (read_at t) m)

  -- The series that are made from the position.
  abbrev pub durable : Gauges F → Option F × Option (PositionSeries F)
  durable m = (m.skipped, m.position)

  durable-observe :
      (unix : ℕ) (r : Option Stats) (m : Gauges F) → durable (observe fl unix r m) ≡ durable m
  unfolding observe
  durable-observe unix none m = refl
  durable-observe unix (some s) m = refl

  on_stats-unread :
      (unix : ℕ) (reading : Option Stats) (r : PositionRead) (m : Gauges F)
      → (r ≡ failed) ⊎ (r ≡ fresh)
      → durable (on_stats fl unix reading r m) ≡ durable m
  unfolding on_stats skip_reading observe_position observe
  on_stats-unread unix none r m (inl e) = rw e refl
  on_stats-unread unix (some st) r m (inl e) = rw e refl
  on_stats-unread unix none r m (inr e) = rw e refl
  on_stats-unread unix (some st) r m (inr e) = rw e refl

  durable-observe_skipped :
      (n : ℕ) (p : Position) (m : Gauges F)
      → 0 < n
      → p.highest_seq + 1 < 18446744073709551616
      → durable (observe_skipped fl n p m)
        ≡ (some (fl.of_int (pos (n - (p.highest_seq + 1)))), m.position)
  unfolding observe_skipped
  durable-observe_skipped n p m first range =
      let small : (p.highest_seq + 1) % 18446744073709551616 ≡ p.highest_seq + 1 = omega arith in
      let nonzero : eqb n 0 ≡ false = ground arith in
      elim (Bool-cases (ltb (p.highest_seq + 1) n)) [
        | inl above ↦ rw (nonzero, small, above) refl
        | inr below ↦
            let none_left : n - (p.highest_seq + 1) ≡ 0 = ground (arith, below) in
            rw (nonzero, small, below, none_left) refl
      ]

  on_stats-found :
      (unix : ℕ) (st : Stats) (p : Position) (rows : ℕ) (m : Gauges F)
      → 0 < st.first_seq
      → p.highest_seq + 1 < 18446744073709551616
      → durable (on_stats fl unix (some st) (found p rows) m)
        ≡ (some (fl.of_int (pos (st.first_seq - (p.highest_seq + 1)))), some (series_of fl p rows))
  unfolding on_stats skip_reading observe_position observe
  on_stats-found unix st p rows m first range = durable-observe_skipped st.first_seq p _ first range

  ticks_unread :
      (ts : List Tick) (m : Gauges F) → All IsUnread ts → durable (ticks ts m) ≡ durable m
  unfolding ticks
  ticks_unread [] m u = refl
  ticks_unread (t ∷ ts) m u =
      ticks_unread ts (on_stats fl t.unix t.reading (read_at t) m) u.1
      ∙ on_stats-unread t.unix t.reading (read_at t) m (read_at-unread t u.0)

  ticks-append : (ts us : List Tick) (m : Gauges F) → ticks (ts ++ us) m ≡ ticks us (ticks ts m)
  unfolding ticks
  ticks-append [] us m = refl
  ticks-append (t ∷ ts) us m = ticks-append ts us (on_stats fl t.unix t.reading (read_at t) m)

  -- After ticks of any kind, then one that reads the broker's statistics and the store's position
  -- `p`, then ticks that read no position: the skipped series is the stream's first sequence minus
  -- `p.highest_seq + 1`, or 0 when the stream has discarded nothing that far, and the series of the
  -- position are those of `p` and of the number of rows, so that what cannot be read changes neither.
  pub ticks-latest :
      (earlier later : List Tick) (t : Tick) (st : Stats) (p : Position)
      → IsRead t st p
      → All IsUnread later
      → durable (ticks (earlier ++ (t ∷ later)) (new_gauges fl)) ≡ (
        some (fl.of_int (pos (st.first_seq - (p.highest_seq + 1)))),
        some (series_of fl p (count t.store)),
      )
  unfolding ticks
  ticks-latest earlier later t st p r rest =
      let before = ticks earlier (new_gauges fl) in
      ap durable (ticks-append earlier (t ∷ later) (new_gauges fl))
      ∙ ticks_unread later (on_stats fl t.unix t.reading (read_at t) before) rest
      ∙ rw (r.has_reading, read_at-read t st p r)
          (on_stats-found t.unix st p (count t.store) before r.has_first r.in_range)

  -- An archive whose position was never read, or has none, has made no series of it.
  pub ticks_absent :
      (ts : List Tick) → All IsUnread ts → durable (ticks ts (new_gauges fl)) ≡ (none, none)
  ticks_absent ts u = ticks_unread ts (new_gauges fl) u

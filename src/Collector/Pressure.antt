-- ===== src/Collector/Pressure.antt =====
-- services/collector/internal/adapters/archivepressure/archivepressure.go: the archive's backlog as
-- a fraction of the stream's retention window. Each reading of the clock is an argument; a time is a
-- number of nanoseconds, and a `readAt` that IsZero is `none`.
use ghost_trace.Prelude.{ℕ, ◌+◌, Option, none, some, List, [], ◌∷◌, ltb, eqb, if◌then◌else◌}
use ghost_trace.Prelude.Int.{negsuc, pos_part}
use ghost_trace.Prelude.Float.{Float64}
use ghost_trace.Stream.Progress.{Stats, BrokerPoll, read}

pub record Pressure (F : Type 0) : Type 0 where
  pub reading : F
  pub read_at : Option ℕ

abbrev pub stale : ℕ
stale = 90000000000

module _ {F : Type 0} (fl : Float64 F) where
  abbrev pub unknown : F
  unknown = fl.of_int (negsuc 0)

  abbrev pub no_reading : Pressure F
  no_reading = record { reading = unknown; read_at = none }

  abbrev pub fraction : Stats → F
  fraction st = fl.div (fl.of_int st.oldest_age) (fl.of_int st.max_age)

  -- `none` is an error; a window that is not positive is a reading of nothing.
  unfoldable pub observe : ℕ → Option Stats → Pressure F → Pressure F
  observe now none p = p
  observe now (some st) p =
      if eqb (pos_part st.max_age) 0
      then p
      else record { reading = fraction st; read_at = some now }

  unfoldable pub level : ℕ → Pressure F → F
  level now p = elim p.read_at [
    | none ↦ unknown
    | some at ↦ if ltb (at + stale) now then unknown else p.reading
  ]

  -- The polls of a watcher, the earliest first, each with the time at which it is observed.
  unfoldable pub watch : List (BrokerPoll × ℕ) → Pressure F → Pressure F
  watch [] p = p
  watch ((b, at) ∷ bs) p = watch bs (observe at (read b) p)

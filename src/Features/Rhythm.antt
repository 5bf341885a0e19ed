-- ===== src/Features/Rhythm.antt =====
-- The counters of keystroke.go against the number of key events.
use ghost_trace.Prelude.{
  suc, ◌+◌, ◌<◌, ◌≤◌, ◌≡◌, List, [], ◌∷◌, length, arith, string_comparable, inl, inr, Option-cases,
}
use ghost_trace.Prelude.Dict.{lookup}
use ghost_trace.Prelude.Float.{Float64}
use ghost_trace.Features.{Keystroke}
use ghost_trace.Features.Timing.{
  KeyEvent, pending_key, no_keystroke, add_flight, add_dwell, key_down, release, key_up, add_key,
  add_keys, keystroke_state,
}

module _ {F : Type 0} (fl : Float64 F) where
  -- Each key event gives at most one interval of each kind.
  record IsCounted (k : Keystroke F) : Type 0 where
    repeats : k.exact_repeats ≤ k.flight_count
    flights : k.flight_count ≤ k.key_count
    dwells : k.dwell_count ≤ k.key_count

  add_key-IsCounted :
      (e : KeyEvent) (k : Keystroke F)
      → k.key_count < 4294967295
      → IsCounted k
      → IsCounted (add_key fl e k) × ((add_key fl e k).key_count ≡ suc k.key_count)
  unfolding add_key key_down key_up release add_flight add_dwell
  add_key-IsCounted e k small c =
      let repeats : k.exact_repeats ≤ k.flight_count = c.repeats in
      let flights : k.flight_count ≤ k.key_count = c.flights in
      let dwells : k.dwell_count ≤ k.key_count = c.dwells in
      elim (Option-cases (lookup (pending_key e.class e.target) k.pending_down)) [
        | inl absent ↦ (
          record { repeats = ground arith; flights = ground arith; dwells = ground arith },
          ground arith,
        )
        | inr (at, present) ↦ (
          record { repeats = ground arith; flights = ground arith; dwells = ground arith },
          ground arith,
        )
      ]

  add_keys-IsCounted :
      (es : List KeyEvent) (k : Keystroke F)
      → k.key_count + length es < 4294967296
      → IsCounted k
      → IsCounted (add_keys fl es k) × ((add_keys fl es k).key_count ≡ k.key_count + length es)
  unfolding add_keys
  add_keys-IsCounted [] k small c = (c, omega arith)
  add_keys-IsCounted (e ∷ es) k small c =
      let one = add_key-IsCounted e k (omega arith) c in
      let rest = add_keys-IsCounted es (add_key fl e k) (omega arith) one.0 in (rest.0, omega arith)

  -- Over any sequence of fewer than 2^32 key events from a fresh accumulator: `State` reports
  -- exactly the number of events as keys and at most that many intervals, and the accumulator
  -- holds at most as many exact repeats as flight intervals and at most one dwell for each event.
  pub keystroke_state-counts :
      (es : List KeyEvent)
      → length es < 4294967296
      → ((keystroke_state fl (add_keys fl es (no_keystroke fl))).keys ≡ length es)
        × ((keystroke_state fl (add_keys fl es (no_keystroke fl))).intervals ≤ length es)
        × ((add_keys fl es (no_keystroke fl)).exact_repeats
            ≤ (keystroke_state fl (add_keys fl es (no_keystroke fl))).intervals)
        × ((add_keys fl es (no_keystroke fl)).dwell_count ≤ length es)
  unfolding keystroke_state
  keystroke_state-counts es small =
      let run =
        add_keys-IsCounted es (no_keystroke fl) (omega arith)
          (record { repeats = omega arith; flights = omega arith; dwells = omega arith }) in
      (omega arith, ground (arith, run.0.flights), run.0.repeats, ground (arith, run.0.dwells))

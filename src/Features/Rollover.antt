-- ===== src/Features/Rollover.antt =====
-- Overlapping keys: a release is paired with its own press, whatever was typed in between.
use ghost_trace.Prelude.{
  ℕ, ◌-◌, ◌≤◌, ◌≡◌, ◌≢◌, ◌⊎◌, List, [], ◌∷◌, All, true, false, arith, refl, ◌∙◌, ◌==◌,
  string_comparable, String, Option, none, some, leb,
}
use ghost_trace.Prelude.Int.{pos}
use ghost_trace.Prelude.Dict.{lookup, lookup-insert, lookup-insert_self, lookup-erase_ne}
use ghost_trace.Prelude.Float.{Float64}
use ghost_trace.Features.{Keystroke, incr}
use ghost_trace.Features.Timing.{
  KeyEvent, pending_key, add_flight, add_dwell, key_down, release, key_up, add_key, add_keys,
}

module _ {F : Type 0} (fl : Float64 F) where
  -- A modifier, or an event of another key.
  abbrev pub IsOther : String → KeyEvent → Type 0
  IsOther key e = (e.class ≡ "mod") ⊎ (pending_key e.class e.target ≢ key)

  add_dwell-pending_down :
      (d : F) (k : Keystroke F) → (add_dwell fl d k).pending_down ≡ k.pending_down
  unfolding add_dwell
  add_dwell-pending_down d k = ground arith

  add_flight-pending_down :
      (d : F) (k : Keystroke F) → (add_flight fl d k).pending_down ≡ k.pending_down
  unfolding add_flight
  add_flight-pending_down d k = ground arith

  key_down-lookup :
      (j key : String) (t : ℕ) (k : Keystroke F)
      → j ≢ key
      → lookup key (key_down fl j t k).pending_down ≡ lookup key k.pending_down
  unfolding key_down
  key_down-lookup j key t k other = ground (
    arith,
    string_comparable.same_iff j key,
    lookup-insert j key t k.pending_down,
    add_flight-pending_down (fl.of_int (pos (t - k.last_up_ms))) k,
  )

  release-lookup :
      (j key : String) (t : ℕ) (o : Option ℕ) (k : Keystroke F)
      → j ≢ key
      → lookup key (release fl j t o k).pending_down ≡ lookup key k.pending_down
  unfolding release
  release-lookup j key t none k other = refl
  release-lookup j key t (some at) k other = ground (
    arith,
    lookup-erase_ne key j k.pending_down,
    add_dwell-pending_down (fl.of_int (pos (t - at))) k,
  )

  -- Events of other keys leave a key's press waiting.
  add_key-lookup :
      (key : String) (e : KeyEvent) (k : Keystroke F)
      → IsOther key e
      → lookup key (add_key fl e k).pending_down ≡ lookup key k.pending_down
  unfolding add_key key_up
  add_key-lookup key e k other =
      let counted : Keystroke F = record k { key_count = incr k.key_count } in
      let j : String = pending_key e.class e.target in
      ground (
        arith,
        string_comparable.same_iff e.class "mod",
        key_down-lookup j key e.t_ms counted,
        release-lookup j key e.t_ms (lookup j k.pending_down) counted,
      )

  add_keys-lookup :
      (key : String) (es : List KeyEvent) (k : Keystroke F)
      → All (IsOther key) es
      → lookup key (add_keys fl es k).pending_down ≡ lookup key k.pending_down
  unfolding add_keys
  add_keys-lookup key [] k h = refl
  add_keys-lookup key (e ∷ es) k h =
      add_keys-lookup key es (add_key fl e k) h.1 ∙ add_key-lookup key e k h.0

  pressed_lem :
      (e : KeyEvent) (k : Keystroke F)
      → e.phase ≡ "down"
      → e.class ≢ "mod"
      → lookup (pending_key e.class e.target) (add_key fl e k).pending_down ≡ some e.t_ms
  unfolding add_key key_down
  pressed_lem e k is_down typed =
      let not_mod : (e.class == "mod") ≡ false =
        ground (arith, string_comparable.same_iff e.class "mod") in
      rw (not_mod, is_down) (lookup-insert_self (pending_key e.class e.target) e.t_ms _)

  -- A release of a key that was pressed at `at`.
  released_lem :
      (e : KeyEvent) (at : ℕ) (k : Keystroke F)
      → e.phase ≡ "up"
      → e.class ≢ "mod"
      → lookup (pending_key e.class e.target) k.pending_down ≡ some at
      → at ≤ e.t_ms
      → fl.le (fl.literal 1 1) (fl.of_int (pos (e.t_ms - at))) ≡ true
      → fl.le (fl.of_int (pos (e.t_ms - at))) (fl.literal 1000 1) ≡ true
      → ((add_key fl e k).dwell_count ≡ incr k.dwell_count)
        × ((add_key fl e k).dwell_sum ≡ fl.add k.dwell_sum (fl.of_int (pos (e.t_ms - at))))
  unfolding add_key key_up release add_dwell
  released_lem e at k is_up typed waiting later long short =
      let not_mod : (e.class == "mod") ≡ false =
        ground (arith, string_comparable.same_iff e.class "mod") in
      let in_order : leb at e.t_ms ≡ true = ground arith in
      simp (not_mod, is_up, waiting, in_order, long, short) (refl, refl)

  pub release-add_keys :
      (down up : KeyEvent) (es : List KeyEvent) (k : Keystroke F)
      → down.phase ≡ "down"
      → up.phase ≡ "up"
      → down.class ≢ "mod"
      → up.class ≡ down.class
      → up.target ≡ down.target
      → down.t_ms ≤ up.t_ms
      → All (IsOther (pending_key down.class down.target)) es
      → fl.le (fl.literal 1 1) (fl.of_int (pos (up.t_ms - down.t_ms))) ≡ true
      → fl.le (fl.of_int (pos (up.t_ms - down.t_ms))) (fl.literal 1000 1) ≡ true
      → let before = add_keys fl es (add_key fl down k) in
        ((add_key fl up before).dwell_count ≡ incr before.dwell_count)
        × ((add_key fl up before).dwell_sum
            ≡ fl.add before.dwell_sum (fl.of_int (pos (up.t_ms - down.t_ms))))
  release-add_keys down up es k is_down is_up typed same_class same_target later others long short =
      let key : String = pending_key down.class down.target in
      let pressed : Keystroke F = add_key fl down k in
      let same_key : pending_key up.class up.target ≡ key = rw (same_class, same_target) refl in
      let waiting : lookup key pressed.pending_down ≡ some down.t_ms =
        pressed_lem down k is_down typed in
      let still = add_keys-lookup key es pressed others in
      released_lem up down.t_ms (add_keys fl es pressed) is_up (rw same_class typed)
        (rw same_key (still ∙ waiting)) later long short

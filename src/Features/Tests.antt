-- ===== src/Features/Tests.antt =====
-- A gesture, a few key events and a few page events, in fixed-point numbers.
use ghost_trace.Prelude.{
  string_comparable, ℕ, ◌+◌, ◌*◌, ◌≤◌, ◌≡◌, ◌≢◌, refl, List, [], ◌∷◌, arith, inl, inr,
}
use ghost_trace.Prelude.Int.{pos}
use ghost_trace.Prelude.FixedPoint.{fixed_point}
use ghost_trace.Features.{Point, incr}
use ghost_trace.Features.Segments.{
  no_pointer, pointer_state, add_segment, current_segment, add, next_points, place_point,
  first_point, start_segment, extend, dist, turn_angle, close_segment,
}
use ghost_trace.Features.SegmentBounds.{Gesture, add_all, total_points, pointer_state-segments}
use ghost_trace.Features.Timing.{KeyEvent, pending_key, no_keystroke, add_key, add_keys}
use ghost_trace.Features.Rollover.{release-add_keys}
use ghost_trace.Features.Counters.{
  Call, scroll, focus, form, apply_calls, interaction_state, no_interaction,
}
use ghost_trace.Features.Order.{interaction_state-Perm}
use mathlib.Core.List.{Permᴰ}

abbrev at_x : ℕ → ℕ → Point
at_x x dt = record { x = pos x; y = pos 10; dt_ms = dt }

abbrev swipe : List Gesture
swipe =
    (100, at_x 0 0 ∷ at_x 30 8 ∷ at_x 60 8 ∷ at_x 90 8 ∷ at_x 120 8 ∷ [])
    ∷ (900, at_x 10 0 ∷ at_x 50 8 ∷ [])
    ∷ []

sweep_state :
    (pointer_state fixed_point (add_all fixed_point swipe (no_pointer fixed_point))).segments ≡ 1
unfolding pointer_state add_all add_segment current_segment add next_points place_point first_point
    start_segment extend dist turn_angle close_segment
sweep_state = refl

pointer_state-segments_example :
    ((pointer_state fixed_point (add_all fixed_point swipe (no_pointer fixed_point))).points
      ≡ total_points swipe)
    × (3 * (pointer_state fixed_point (add_all fixed_point swipe (no_pointer fixed_point))).segments
        ≤ total_points swipe)
pointer_state-segments_example = pointer_state-segments fixed_point swipe (omega arith)

abbrev press : ℕ → KeyEvent
press t = record { t_ms = t; phase = "down"; class = "letter"; target = "email" }

abbrev release_at : ℕ → KeyEvent
release_at t = record { t_ms = t; phase = "up"; class = "letter"; target = "email" }

abbrev digit_down : KeyEvent
digit_down = record { t_ms = 140; phase = "down"; class = "digit"; target = "email" }

abbrev shift_up : KeyEvent
shift_up = record { t_ms = 150; phase = "up"; class = "mod"; target = "email" }

abbrev typed : List KeyEvent
typed = press 100 ∷ digit_down ∷ shift_up ∷ release_at 190 ∷ []

abbrev between : List KeyEvent
between = digit_down ∷ shift_up ∷ []

letter_typed : (press 100).class ≢ "mod"
letter_typed = ground (arith, string_comparable.same_iff "letter" "mod")

digit_other : pending_key "digit" "email" ≢ pending_key "letter" "email"
digit_other =
    ground (
      arith,
      string_comparable.same_iff (pending_key "digit" "email") (pending_key "letter" "email"),
    )

release-add_keys_example :
    let before =
      add_keys fixed_point between (add_key fixed_point (press 100) (no_keystroke fixed_point)) in
    ((add_key fixed_point (release_at 190) before).dwell_count ≡ incr before.dwell_count)
    × ((add_key fixed_point (release_at 190) before).dwell_sum ≡ before.dwell_sum + 90000)
release-add_keys_example =
    release-add_keys fixed_point (press 100) (release_at 190) between (no_keystroke fixed_point)
      refl refl letter_typed refl refl (omega arith) (inr digit_other, (inl refl, tt)) refl refl

abbrev page : List Call
page = focus "email" ∷ form "injected" "email" ∷ scroll "programmatic" ∷ []

abbrev page_late : List Call
page_late = form "injected" "email" ∷ focus "email" ∷ scroll "programmatic" ∷ []

interaction_state-Perm_example :
    interaction_state fixed_point (apply_calls page no_interaction)
    ≡ interaction_state fixed_point (apply_calls page_late no_interaction)
interaction_state-Perm_example =
    interaction_state-Perm fixed_point page page_late no_interaction (Permᴰ.swap refl refl)

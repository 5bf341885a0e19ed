-- ===== src/Features/Counters.antt =====
-- interaction.go: the counters of scrolls, focus changes, visibility changes and form events.
use ghost_trace.Prelude.{
  ℕ, ◌%◌, Bool, String, List, [], ◌∷◌, length, ltb, ◌==◌, string_comparable, if◌then◌else◌,
}
use ghost_trace.Prelude.Int.{pos}
use ghost_trace.Prelude.Dict.{Dict, insert}
use ghost_trace.Prelude.Float.{Float64}
use ghost_trace.Features.{Interaction, InteractionState, incr}

abbrev pub no_interaction : Interaction
no_interaction = record {
  scroll_events = 0;
  programmatic_scroll = 0;
  focus_events = 0;
  focus_targets = [];
  visibility_changes = 0;
  hidden_periods = 0;
  pastes = 0;
  autofills = 0;
  submits = 0;
  injections = 0;
  injected_fields = [];
}

-- A counter that is advanced when the test holds.
abbrev pub incr_if : Bool → ℕ → ℕ
incr_if b n = if b then incr n else n

-- A target is remembered when it has a name.
unfoldable pub remember : String → Dict String (Unit {0}) → Dict String (Unit {0})
remember target seen = if target == "" then seen else insert target tt seen

unfoldable pub add_scroll : String → Interaction → Interaction
add_scroll mode i = record i {
  scroll_events = incr i.scroll_events;
  programmatic_scroll = incr_if (mode == "programmatic") i.programmatic_scroll;
}

unfoldable pub add_focus : String → Interaction → Interaction
add_focus target i = record i {
  focus_events = incr i.focus_events;
  focus_targets = remember target i.focus_targets;
}

unfoldable pub add_visibility : String → Interaction → Interaction
add_visibility state i = record i {
  visibility_changes = incr i.visibility_changes;
  hidden_periods = incr_if (state == "hidden") i.hidden_periods;
}

unfoldable pub add_form : String → String → Interaction → Interaction
add_form action target i =
    if action == "paste"
    then record i { pastes = incr i.pastes }
    else if action == "autofill"
    then record i { autofills = incr i.autofills }
    else if action == "submit"
    then record i { submits = incr i.submits }
    else if action == "injected"
    then record i {
      injections = incr i.injections;
      injected_fields = remember target i.injected_fields;
    }
    else i

-- A call of one of the four methods.
pub data Call : Type 0 where
  scroll : String → Call
  focus : String → Call
  visibility : String → Call
  form : String → String → Call

unfoldable pub apply_call : Call → Interaction → Interaction
apply_call (scroll mode) i = add_scroll mode i
apply_call (focus target) i = add_focus target i
apply_call (visibility state) i = add_visibility state i
apply_call (form action target) i = add_form action target i

unfoldable pub apply_calls : List Call → Interaction → Interaction
apply_calls [] i = i
apply_calls (c ∷ cs) i = apply_calls cs (apply_call c i)

module _ {F : Type 0} (fl : Float64 F) where
  unfoldable pub interaction_state : Interaction → InteractionState F
  interaction_state i = record {
    programmatic_scroll_ratio =
        if ltb 0 i.scroll_events
        then fl.div (fl.of_int (pos i.programmatic_scroll)) (fl.of_int (pos i.scroll_events))
        else fl.literal 0 1;
    scroll_events = i.scroll_events;
    focus_transitions = i.focus_events;
    distinct_focus_targets = length i.focus_targets % 4294967296;
    hidden_periods = i.hidden_periods;
    pastes = i.pastes;
    autofills = i.autofills;
    injections = i.injections;
    injected_fields = length i.injected_fields % 4294967296;
  }

-- ===== src/Features/Order.antt =====
-- The order of events does not matter to interaction.go: telemetry batches arrive out of order.
use ghost_trace.Prelude.{
  ◌≡◌, List, [], ◌∷◌, arith, refl, sym, ◌∙◌, ◌==◌, string_comparable, if◌then◌else◌, String,
}
use mathlib.Core.List.{Permᴰ}
use ghost_trace.Prelude.Float.{Float64}
use ghost_trace.Features.{Interaction}
use ghost_trace.Features.Counters.{
  remember, add_scroll, add_focus, add_visibility, add_form, Call, scroll, focus, visibility, form,
  apply_call, apply_calls, interaction_state,
}
use ghost_trace.Features.Targets.{
  SameSet, remember_nothing, remember-SameSet, remember_comm, SameSet-refl, SameSet-trans,
}

-- The counters alone.
abbrev pub counters : Interaction → Interaction
counters i = record i { focus_targets = []; injected_fields = [] }

-- What a call adds to each of the two sets, "" for nothing.
abbrev pub focused : Call → String
focused (focus t) = t
focused _ = ""

abbrev pub filled : Call → String
filled (form action t) =
    if action == "paste"
    then ""
    else if action == "autofill"
    then ""
    else if action == "submit"
    then ""
    else if action == "injected"
    then t
    else ""
filled _ = ""

apply_call-focus_targets :
    (c : Call) (i : Interaction)
    → (apply_call c i).focus_targets ≡ remember (focused c) i.focus_targets
unfolding apply_call add_scroll add_focus add_visibility add_form remember
apply_call-focus_targets (scroll mode) i = refl
apply_call-focus_targets (focus t) i = refl
apply_call-focus_targets (visibility s) i = refl
apply_call-focus_targets (form a t) i = ground arith

apply_call-injected_fields :
    (c : Call) (i : Interaction)
    → (apply_call c i).injected_fields ≡ remember (filled c) i.injected_fields
unfolding apply_call add_scroll add_focus add_visibility add_form
apply_call-injected_fields (scroll mode) i = sym (remember_nothing i.injected_fields)
apply_call-injected_fields (focus t) i = sym (remember_nothing i.injected_fields)
apply_call-injected_fields (visibility s) i = sym (remember_nothing i.injected_fields)
apply_call-injected_fields (form a t) i = ground (arith, sym (remember_nothing i.injected_fields))

apply_call-counters :
    (c : Call) (i : Interaction) → counters (apply_call c i) ≡ counters (apply_call c (counters i))
unfolding apply_call add_scroll add_focus add_visibility add_form
apply_call-counters (scroll mode) i = refl
apply_call-counters (focus t) i = refl
apply_call-counters (visibility s) i = refl
apply_call-counters (form a t) i = ground arith

counters_comm :
    (c d : Call) (i : Interaction)
    → counters (apply_call c (apply_call d i)) ≡ counters (apply_call d (apply_call c i))
unfolding apply_call add_scroll add_focus add_visibility add_form
counters_comm c d i = ground arith

-- Equal counters and the same sets: nothing that `State` reads tells the two apart.
record SameEvidence (a b : Interaction) : Type 0 where
  same_counters : counters a ≡ counters b
  targets : SameSet a.focus_targets b.focus_targets
  fields : SameSet a.injected_fields b.injected_fields

SameEvidence-refl : (i : Interaction) → SameEvidence i i
SameEvidence-refl i = record {
  same_counters = refl;
  targets = SameSet-refl i.focus_targets;
  fields = SameSet-refl i.injected_fields;
}

SameEvidence-trans : (a b c : Interaction) → SameEvidence a b → SameEvidence b c → SameEvidence a c
SameEvidence-trans a b c h g = record {
  same_counters = h.same_counters ∙ g.same_counters;
  targets = SameSet-trans _ _ _ h.targets g.targets;
  fields = SameSet-trans _ _ _ h.fields g.fields;
}

apply_call-SameEvidence :
    (c : Call) (a b : Interaction)
    → SameEvidence a b
    → SameEvidence (apply_call c a) (apply_call c b)
apply_call-SameEvidence c a b s = record {
  same_counters = rw (apply_call-counters c a, apply_call-counters c b, s.same_counters) refl;
  targets =
      rw (apply_call-focus_targets c a, apply_call-focus_targets c b)
        (remember-SameSet (focused c) a.focus_targets b.focus_targets s.targets);
  fields =
      rw (apply_call-injected_fields c a, apply_call-injected_fields c b)
        (remember-SameSet (filled c) a.injected_fields b.injected_fields s.fields);
}

apply_calls-SameEvidence :
    (cs : List Call) (a b : Interaction)
    → SameEvidence a b
    → SameEvidence (apply_calls cs a) (apply_calls cs b)
unfolding apply_calls
apply_calls-SameEvidence [] a b s = s
apply_calls-SameEvidence (c ∷ cs) a b s =
    apply_calls-SameEvidence cs (apply_call c a) (apply_call c b) (apply_call-SameEvidence c a b s)

apply_call_comm :
    (c d : Call) (i : Interaction)
    → SameEvidence (apply_call c (apply_call d i)) (apply_call d (apply_call c i))
apply_call_comm c d i = record {
  same_counters = counters_comm c d i;
  targets =
      rw
        (
          apply_call-focus_targets c (apply_call d i),
          apply_call-focus_targets d (apply_call c i),
          apply_call-focus_targets c i,
          apply_call-focus_targets d i,
        )
        (remember_comm (focused c) (focused d) i.focus_targets);
  fields =
      rw
        (
          apply_call-injected_fields c (apply_call d i),
          apply_call-injected_fields d (apply_call c i),
          apply_call-injected_fields c i,
          apply_call-injected_fields d i,
        )
        (remember_comm (filled c) (filled d) i.injected_fields);
}

apply_calls-Permᴰ :
    (cs ds : List Call) (i : Interaction)
    → Permᴰ cs ds
    → SameEvidence (apply_calls cs i) (apply_calls ds i)
unfolding apply_calls
apply_calls-Permᴰ _ _ i Permᴰ.nil = SameEvidence-refl i
apply_calls-Permᴰ _ _ i (Permᴰ.cons {b = d} {l₁ = cs} {l₂ = ds} e p) =
    rw e (apply_calls-Permᴰ cs ds (apply_call d i) p)
apply_calls-Permᴰ _ _ i (Permᴰ.swap {a' = c'} {b' = d'} {l = cs} e f) =
    rw (e, f) (apply_calls-SameEvidence cs _ _ (apply_call_comm c' d' i))
apply_calls-Permᴰ _ _ i (Permᴰ.trans {l₁ = cs} {l₂ = ds} {l₃ = es} p q) =
    SameEvidence-trans _ _ _ (apply_calls-Permᴰ cs ds i p) (apply_calls-Permᴰ ds es i q)

module _ {F : Type 0} (fl : Float64 F) where
  interaction_state-SameEvidence :
      (a b : Interaction) → SameEvidence a b → interaction_state fl a ≡ interaction_state fl b
  unfolding interaction_state
  interaction_state-SameEvidence a b s =
      ground (arith, s.same_counters, s.targets.size, s.fields.size)

  -- Two sequences of scroll, focus, visibility and form events that are the same up to order give
  -- the same `State`, from whatever accumulator they start: every count, the distinct focus
  -- targets, the injected fields and the scroll ratio.
  pub interaction_state-Perm :
      (cs ds : List Call) (i : Interaction)
      → Permᴰ cs ds
      → interaction_state fl (apply_calls cs i) ≡ interaction_state fl (apply_calls ds i)
  interaction_state-Perm cs ds i p =
      interaction_state-SameEvidence _ _ (apply_calls-Permᴰ cs ds i p)

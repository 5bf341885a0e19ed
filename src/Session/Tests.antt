-- ===== src/Session/Tests.antt =====
-- Two sessions with a lifetime of 100.
use ghost_trace.Prelude.{
  ℕ, ◌+◌, ◌≢◌, refl, List, [], ◌∷◌, false, some, String, string_comparable, arith,
}
use ghost_trace.Prelude.Int.{pos}
use ghost_trace.Prelude.Dict.{lookup, insert, IsFunctional}
use ghost_trace.Prelude.FixedPoint.{fixed_point}
use ghost_trace.Session.{State, Client, Store, new_state, with_token, with_entry, create}
use ghost_trace.Session.Lifetime.{
  Op, create_session, with_session, after, step, IsCurrent, with_token-IsCurrent,
}

abbrev desktop : Client
desktop = record {
  pointer_type = "mouse";
  touch = false;
  viewport = (pos 1280, pos 720);
  tz_offset_min = pos 0;
  reduced_motion = false;
}

abbrev fresh : String → State ℕ
fresh id = new_state fixed_point id "acme" "/login" desktop 5

abbrev two_sessions : Store ℕ
two_sessions = record {
  by_token =
      ("st_1", record { state = fresh "s_1"; expires_at = 105 })
      ∷ ("st_2", record { state = fresh "s_2"; expires_at = 160 })
      ∷ [];
  ttl = 100;
}

two_sessions-IsFunctional : IsFunctional two_sessions.by_token
unfolding lookup
two_sessions-IsFunctional = (refl, (refl, tt))

abbrev count_batches : State ℕ → State ℕ × ℕ
count_batches st = (record st { batches_seen = st.batches_seen + 1 }, st.batches_seen)

abbrev token_1 : String
token_1 = "st_1"

abbrev token_2 : String
token_2 = "st_2"

tokens_apart : token_2 ≢ token_1
tokens_apart = ground (arith, string_comparable.same_iff token_2 token_1)

abbrev history : List (Op ℕ)
history =
    with_session token_1 (λ st. st) 40
    ∷ create_session (some token_1) (some "s_1") 5 6 "acme" "/login" desktop
    ∷ []

with_token-IsCurrent_example : IsCurrent fixed_point 100 history token_1 50
unfolding after step create with_token with_entry lookup insert
with_token-IsCurrent_example =
    with_token-IsCurrent fixed_point 100 history token_1 count_batches 50 0 refl

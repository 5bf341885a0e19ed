-- ===== src/Session/Expiry.antt =====
-- The lifetime of a session: `With`, `Sweep` and `Create` against the clock.
use ghost_trace.Prelude.{
  ℕ, ◌+◌, ◌≡◌, ◌≢◌, inl, inr, refl, [], ◌∷◌, length, arith, if◌then◌else◌, Option, none, some,
  String, string_comparable, Bool-cases, Option-cases,
}
use ghost_trace.Prelude.Dict.{
  Dict, lookup, IsFunctional, lookup-insert, lookup-insert_self, lookup-erase_ne, lookup-erase_self,
}
use ghost_trace.Session.{
  State, Entry, Store, is_expired, with_entry, with_token, len, sweep_entries, sweep,
}

module _ {F : Type 0} where
  -- What a token gives at a time: nothing once it has expired.
  abbrev pub live : ℕ → Option (Entry F) → Option (Entry F)
  live now none = none
  live now (some e) = if is_expired now e then none else some e

  pub sweep_entries-lookup :
      (now : ℕ) (token : String) (m : Dict String (Entry F))
      → IsFunctional m
      → lookup token (sweep_entries now m).0 ≡ live now (lookup token m)
  unfolding sweep_entries lookup
  sweep_entries-lookup now token [] h = refl
  sweep_entries-lookup now token ((t, e) ∷ m) h =
      ground (arith, string_comparable.same_iff t token, sweep_entries-lookup now token m h.1)

  sweep_entries-length :
      (now : ℕ) (m : Dict String (Entry F))
      → length (sweep_entries now m).0 + (sweep_entries now m).1 ≡ length m
  unfolding sweep_entries
  sweep_entries-length now [] = refl
  sweep_entries-length now ((t, e) ∷ m) = ground (arith, sweep_entries-length now m)

  -- On a store with one entry for each token: after `Sweep` a token gives its session if it had
  -- one that had not expired, and nothing otherwise; and the number that `Sweep` returns is the
  -- number of sessions that are gone.
  pub sweep-live :
      (now : ℕ) (token : String) (s : Store F)
      → IsFunctional s.by_token
      → (lookup token (sweep now s).0.by_token ≡ live now (lookup token s.by_token))
        × (len (sweep now s).0 + (sweep now s).1 ≡ len s)
  unfolding sweep len
  sweep-live now token s h =
      (sweep_entries-lookup now token s.by_token h, sweep_entries-length now s.by_token)

  -- What `With` answers and leaves behind a token that gave `o`.
  abbrev pub served {ℓ} : {A : Type ℓ} → (State F → State F × A) → Option (Entry F) → Option A
  served fn none = none
  served fn (some e) = some (fn e.state).1

  abbrev pub updated {ℓ} :
      {A : Type ℓ} → (State F → State F × A) → Option (Entry F) → Option (Entry F)
  updated fn none = none
  updated fn (some e) = some (record e { state = (fn e.state).0 })

  -- On a store with one entry for each token: `With` runs its function on the session of a token
  -- that has not expired, answers with its result and keeps the state that it leaves, under the
  -- same expiry; for an unknown or expired token it answers ErrNotFound, and the token gives
  -- nothing afterwards; every other token gives what it gave before.
  pub with_token-live {ℓ} :
      {A : Type ℓ} (token other : String) (fn : State F → State F × A) (now : ℕ) (s : Store F)
      → IsFunctional s.by_token
      → other ≢ token
      → ((with_token token fn now s).1 ≡ served fn (live now (lookup token s.by_token)))
        × (lookup token (with_token token fn now s).0.by_token
            ≡ updated fn (live now (lookup token s.by_token)))
        × (lookup other (with_token token fn now s).0.by_token ≡ lookup other s.by_token)
  unfolding with_token with_entry
  with_token-live token other fn now s h apart = elim (Option-cases (lookup token s.by_token)) [
    | inl absent ↦ rw absent (refl, absent, refl)
    | inr (e, present) ↦ elim (Bool-cases (is_expired now e)) [
      | inl old ↦
          rw (present, old)
            (
              refl,
              lookup-erase_self token s.by_token h,
              lookup-erase_ne other token s.by_token apart,
            )
      | inr fresh ↦
          rw (present, fresh)
            (
              refl,
              lookup-insert_self token _ s.by_token,
              ground (
                arith,
                string_comparable.same_iff token other,
                lookup-insert token other (record e { state = (fn e.state).0 }) s.by_token,
              ),
            )
    ]
  ]

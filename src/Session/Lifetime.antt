-- ===== src/Session/Lifetime.antt =====
-- No session outlives the lifetime that its Create gave it.
use ghost_trace.Prelude.{
  ℕ, ◌+◌, ◌≤◌, ◌≡◌, ◌⊎◌, inl, inr, refl, ◌∙◌, ap, List, [], ◌∷◌, arith, Option, none, some, String,
  string_comparable, Bool-cases, Option-cases, ◌==◌,
}
use ghost_trace.Prelude.Dict.{
  Dict, lookup, insert, erase, IsFunctional, lookup-insert, lookup-erase_ne, lookup-erase_self,
  insert-IsFunctional, erase-IsFunctional,
}
use ghost_trace.Prelude.Float.{Float64}
use ghost_trace.Session.{
  State, Entry, Store, Client, is_expired, with_entry, with_token, sweep_entries, sweep, create,
  new_store,
}
use ghost_trace.Session.Expiry.{sweep_entries-lookup}

-- A call of the store, with what the clock and `NewID` answer in it.
pub data Op (F : Type 0) : Type 0 where
  create_session : Option String → Option String → ℕ → ℕ → String → String → Client → Op F
  with_session : String → (State F → State F) → ℕ → Op F
  sweep_all : ℕ → Op F

module _ {F : Type 0} (fl : Float64 F) (ttl : ℕ) where
  unfoldable pub step : Op F → Store F → Store F
  step (create_session token id started now tenant page client) s =
      (create fl token id started now tenant page client s).0
  step (with_session token fn now) s = (with_token token (λ st. (fn st, tt {0})) now s).0
  step (sweep_all now) s = (sweep now s).0

  -- The store after a history, the newest call first.
  unfoldable pub after : List (Op F) → Store F
  after [] = new_store fl ttl
  after (op ∷ earlier) = step op (after earlier)

  -- A Create in the history gave the token this expiry.
  abbrev pub IsIssuedBy : Op F → String → ℕ → Type 0
  IsIssuedBy (create_session (some t) (some id) started now tenant page client) token expiry =
      (t ≡ token) × (expiry ≡ now + ttl)
  IsIssuedBy _ token expiry = ⊥

  abbrev pub IsIssued : List (Op F) → String → ℕ → Type 0
  IsIssued [] token expiry = ⊥
  IsIssued (op ∷ earlier) token expiry = IsIssuedBy op token expiry ⊎ IsIssued earlier token expiry

  sweep_entries-IsFunctional :
      (now : ℕ) (m : Dict String (Entry F)) → IsFunctional m → IsFunctional (sweep_entries now m).0
  unfolding sweep_entries
  sweep_entries-IsFunctional now [] h = tt
  sweep_entries-IsFunctional now ((t, e) ∷ m) h =
      ground (arith, sweep_entries-IsFunctional now m h.1, sweep_entries-lookup now t m h.1)

  -- Every session of a map has an expiry with the property.
  abbrev pub Within : (String → ℕ → Type 0) → Dict String (Entry F) → Type 0
  Within P m = (token : String) (e : Entry F) → lookup token m ≡ some e → P token e.expires_at

  insert-Within :
      (P : String → ℕ → Type 0) (t : String) (e : Entry F) (m : Dict String (Entry F))
      → P t e.expires_at
      → Within P m
      → Within P (insert t e m)
  insert-Within P t e m p w token e' h = elim (Bool-cases (t == token)) [
    | inl here ↦
        let same : t ≡ token = (string_comparable.same_iff t token).0 here in
        let expiry : e.expires_at ≡ e'.expires_at = ground (arith, lookup-insert t token e m) in
        rw (← same, ← expiry) p
    | inr there ↦ w token e' (ground (arith, lookup-insert t token e m))
  ]

  erase-Within :
      (P : String → ℕ → Type 0) (t : String) (m : Dict String (Entry F))
      → IsFunctional m
      → Within P m
      → Within P (erase t m)
  erase-Within P t m f w token e h = elim (Bool-cases (t == token)) [
    | inl here ↦
        let same : t ≡ token = (string_comparable.same_iff t token).0 here in
        absurd (ground (arith, lookup-erase_self t m f))
    | inr there ↦
        w token e (ground (arith, string_comparable.same_iff t token, lookup-erase_ne token t m))
  ]

  sweep_entries-Within :
      (P : String → ℕ → Type 0) (now : ℕ) (m : Dict String (Entry F))
      → IsFunctional m
      → Within P m
      → Within P (sweep_entries now m).0
  sweep_entries-Within P now m f w token e h =
      w token e (ground (arith, sweep_entries-lookup now token m f))

  with_entry-Within :
      (P : String → ℕ → Type 0) (t : String) (fn : State F → State F × Unit {0}) (now : ℕ)
      (s : Store F)
      → IsFunctional s.by_token
      → Within P s.by_token
      → Within P (with_token t fn now s).0.by_token
        × IsFunctional (with_token t fn now s).0.by_token
        × ((with_token t fn now s).0.ttl ≡ s.ttl)
  unfolding with_token with_entry
  with_entry-Within P t fn now s f w = elim (Option-cases (lookup t s.by_token)) [
    | inl absent ↦ rw absent (w, f, refl)
    | inr (e, present) ↦ elim (Bool-cases (is_expired now e)) [
      | inl old ↦
          rw (present, old)
            (erase-Within P t s.by_token f w, erase-IsFunctional t s.by_token f, refl)
      | inr fresh ↦
          rw (present, fresh)
            (
              insert-Within P t _ s.by_token (w t e present) w,
              insert-IsFunctional t _ s.by_token f,
              refl,
            )
    ]
  ]

  -- One session for each token, and each with an expiry that a Create of the history gave it.
  record IsLawful (history : List (Op F)) (s : Store F) : Type 0 where
    functional : IsFunctional s.by_token
    lifetime : s.ttl ≡ ttl
    within : Within (IsIssued history) s.by_token

  step-IsLawful :
      (op : Op F) (history : List (Op F)) (s : Store F)
      → IsLawful history s
      → IsLawful (op ∷ history) (step op s)
  unfolding step create sweep
  step-IsLawful (create_session none id started now tenant page client) history s i = record {
    functional = i.functional;
    lifetime = i.lifetime;
    within = λ token e h. inr (i.within token e h);
  }
  step-IsLawful (create_session (some t) none started now tenant page client) history s i = record {
    functional = i.functional;
    lifetime = i.lifetime;
    within = λ token e h. inr (i.within token e h);
  }
  step-IsLawful (create_session (some t) (some id) started now tenant page client) history s i =
      let P : String → ℕ → Type 0 =
        IsIssued (create_session (some t) (some id) started now tenant page client ∷ history) in
      record {
        functional = insert-IsFunctional t _ s.by_token i.functional;
        lifetime = i.lifetime;
        within =
            insert-Within P t _ s.by_token (inl (refl, ap (λ n. now + n) i.lifetime))
              (λ token e h. inr (i.within token e h));
      }
  step-IsLawful (with_session t fn now) history s i =
      let served =
        with_entry-Within (IsIssued history) t (λ st. (fn st, tt)) now s i.functional i.within in
      record {
        functional = served.1;
        lifetime = served.2 ∙ i.lifetime;
        within = λ token e h. inr (served.0 token e h);
      }
  step-IsLawful (sweep_all now) history s i = record {
    functional = sweep_entries-IsFunctional now s.by_token i.functional;
    lifetime = i.lifetime;
    within = λ token e h.
        inr
          (sweep_entries-Within (IsIssued history) now s.by_token i.functional i.within token e h);
  }

  after-IsLawful : (history : List (Op F)) → IsLawful history (after history)
  unfolding after lookup
  after-IsLawful [] = record {
    functional = tt;
    lifetime = refl;
    within = λ token e h. absurd (ground arith);
  }
  after-IsLawful (op ∷ earlier) = step-IsLawful op earlier (after earlier) (after-IsLawful earlier)

  with_entry-fresh {ℓ} :
      {A : Type ℓ} (token : String) (fn : State F → State F × A) (now : ℕ) (s : Store F)
      (o : Option (Entry F)) (a : A)
      → (with_entry token fn s now o).1 ≡ some a
      → (e : Entry F) × (o ≡ some e) × (now ≤ e.expires_at)
  unfolding with_entry
  with_entry-fresh token fn now s none a h = absurd (ground arith)
  with_entry-fresh token fn now s (some e) a h = (e, refl, ground arith)

  -- A Create of the token at a time from which the lifetime reaches to `now`.
  abbrev pub IsCurrent : List (Op F) → String → ℕ → Type 0
  IsCurrent history token now = (expiry : ℕ) × IsIssued history token expiry × (now ≤ expiry)

  -- After any history of calls of a store, in which the telemetry handlers may do anything to the
  -- session states and the clock and `NewID` may answer anything: when `With` answers a token at
  -- time `now`, then a Create of that token is in the history, at a time from which the store's
  -- lifetime reaches to `now`. So using a session does not lengthen its life.
  pub with_token-IsCurrent {ℓ} :
      {A : Type ℓ} (history : List (Op F)) (token : String) (fn : State F → State F × A) (now : ℕ)
      (a : A)
      → (with_token token fn now (after history)).1 ≡ some a
      → IsCurrent history token now
  unfolding with_token
  with_token-IsCurrent history token fn now a h =
      let lawful = after-IsLawful history in
      let found = with_entry-fresh token fn now (after history) _ a h in
      (found.0.expires_at, lawful.within token found.0 found.1, found.2)

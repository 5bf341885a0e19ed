-- ===== src/Decision/Tenancy.antt =====
-- A token answers to its own tenant only, and no answer tells another tenant that it exists.
use ghost_trace.Prelude.{
  ℕ, ◌≡◌, ◌≢◌, ◌⊎◌, inl, inr, refl, sym, ◌∙◌, ap, Bool, true, false, Bool-cases, Option,
  Option-cases, none, some, String, ◌==◌, string_comparable,
}
use ghost_trace.Prelude.Dict.{lookup}
use ghost_trace.Prelude.Float.{Float64}
use ghost_trace.Policy.{Calibration}
use ghost_trace.Session.{Entry, Store, with_token, with_entry, is_expired}
use ghost_trace.Session as Sess
use ghost_trace.Decision.{
  Session, Input, Appended, no_session, copy_mine, live_lookup, decide, decide_on,
}

module _ {F : Type 0} (fl : Float64 F) where
  -- The session is the copy of a live session of the store, and the tenant's own.
  abbrev pub IsOwn : String → String → ℕ → Store F → Session F → Type 0
  IsOwn tenant_id token now s sess =
      (e : Entry F) × (lookup token s.by_token ≡ some e)
      × (is_expired now e ≡ false)
      × (e.state.tenant_id ≡ tenant_id)
      × (sess.tenant_id ≡ tenant_id)
      × (sess.id ≡ e.state.id)

  copy_mine-own :
      (tenant_id : String) (st : Sess.State F)
      → ((copy_mine fl tenant_id st).1 ≡ none)
        ⊎ ((sess : Session F) × ((copy_mine fl tenant_id st).1 ≡ some sess)
            × (st.tenant_id ≡ tenant_id)
            × (sess.tenant_id ≡ tenant_id)
            × (sess.id ≡ st.id))
  unfolding copy_mine
  copy_mine-own tenant_id st = elim (Bool-cases (st.tenant_id == tenant_id)) [
    | inl mine ↦
        let owner : st.tenant_id ≡ tenant_id =
          (string_comparable.same_iff st.tenant_id tenant_id).0 mine in
        inr (rw mine (_, refl, owner, owner, refl))
    | inr theirs ↦ inl (rw theirs refl)
  ]

  -- The live store's `Lookup` either finds a session, and then it is a copy of the unexpired
  -- session behind the token, which belongs to the tenant that asks; or it finds none, and then
  -- it answers with the empty session, whether the token is unknown, expired or another tenant's.
  pub live_lookup-IsOwn :
      (tenant_id token : String) (now : ℕ) (s : Store F)
      → ((live_lookup fl tenant_id token now s).1 ≡ (no_session fl, false))
        ⊎ ((sess : Session F) × ((live_lookup fl tenant_id token now s).1 ≡ (sess, true))
            × IsOwn tenant_id token now s sess)
  unfolding live_lookup with_token with_entry
  live_lookup-IsOwn tenant_id token now s = elim (Option-cases (lookup token s.by_token)) [
    | inl absent ↦ inl (rw absent refl)
    | inr (e, present) ↦ elim (Bool-cases (is_expired now e)) [
      | inl old ↦ inl (rw (present, old) refl)
      | inr fresh ↦ elim (copy_mine-own tenant_id e.state) [
        | inl theirs ↦ inl (rw (present, fresh, theirs) refl)
        | inr (sess, copied, owner, own, same) ↦
            inr (sess, rw (present, fresh, copied) refl, (e, present, fresh, owner, own, same))
      ]
    ]
  ]

  lookup_foreign :
      (tenant_id token : String) (now : ℕ) (s : Store F) (e : Entry F)
      → lookup token s.by_token ≡ some e
      → e.state.tenant_id ≢ tenant_id
      → (live_lookup fl tenant_id token now s).1 ≡ (no_session fl, false)
  lookup_foreign tenant_id token now s e present foreign =
      elim (live_lookup-IsOwn tenant_id token now s) [
        | inl missed ↦ missed
        | inr (sess, found, own) ↦
            absurd
              (foreign (ap (λ (o : Option (Entry F)). owner e o) (sym present ∙ own.1) ∙ own.3))
      ]
    where
      owner : Entry F → Option (Entry F) → String
      owner d none = d.state.tenant_id
      owner d (some f) = f.state.tenant_id

  lookup_unknown :
      (tenant_id token : String) (now : ℕ) (s : Store F)
      → lookup token s.by_token ≡ none
      → (live_lookup fl tenant_id token now s).1 ≡ (no_session fl, false)
  unfolding live_lookup with_token with_entry
  lookup_unknown tenant_id token now s absent = rw absent refl

  -- The session port over a live store at one time.
  abbrev pub live_port : ℕ → Store F → String → String → Option (Session F × Bool)
  live_port now s tenant_id token = some (live_lookup fl tenant_id token now s).1

  -- Over a live store, a request with the token of another tenant's session gets the same output
  -- or error, and the same calls of the loss meter, as that request with a token that no session
  -- has.
  pub decide-foreign :
      (cal : Calibration F) (mode : String) (eval_id : Option String) (a : Appended) (i : Input)
      (unknown : String) (now : ℕ) (s : Store F) (e : Entry F)
      → lookup i.session_token s.by_token ≡ some e
      → e.state.tenant_id ≢ i.tenant_id
      → lookup unknown s.by_token ≡ none
      → decide fl cal mode (live_port now s) eval_id a i
        ≡ decide fl cal mode (live_port now s) eval_id a (record i { session_token = unknown })
  unfolding decide decide_on
  decide-foreign cal mode eval_id a i unknown now s e present foreign absent =
      let theirs = lookup_foreign i.tenant_id i.session_token now s e present foreign in
      let nobodys = lookup_unknown i.tenant_id unknown now s absent in simp (theirs, nobodys)

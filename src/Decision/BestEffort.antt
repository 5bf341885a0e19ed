-- ===== src/Decision/BestEffort.antt =====
-- The archive never changes a decision, and what the loss meter is told of it.
use ghost_trace.Prelude.{
  ◌≡◌, ◌≢◌, ◌<◌, ◌⊎◌, inl, inr, refl, sym, ◌∙◌, ap, arith, Bool, false, Bool-cases, Option, none,
  some, String, List, [], ◌∷◌, ◌==◌, string_comparable,
}
use ghost_trace.Prelude.Float.{Float64}
use ghost_trace.Policy.{Calibration, Decision, PolicyError}
use ghost_trace.Policy.Judge.{Outcome, apply, judge}
use ghost_trace.Policy.Restraint.{apply-uncorroborated}
use ghost_trace.Decision.{
  Session, Input, Output, DecideError, Appended, LossCall, LossReason, count_written, count_dropped,
  no_session, archive_best_effort, mint_and_archive, decide_on, decide, output_of,
}

module _ {F : Type 0} (fl : Float64 F) (cal : Calibration F) where
  -- What the loss meter is told when a request is answered with a decision and with an error: of a
  -- decision, the one thing that became of its record, and nothing where there is no archive.
  abbrev pub losses : DecideError ⊎ Output F → Appended → List LossCall
  losses (inl e) appended = []
  losses (inr o) Appended.written = count_written ∷ []
  losses (inr o) Appended.unavailable = []
  losses (inr o) Appended.deadline = count_dropped LossReason.deadline ∷ []
  losses (inr o) Appended.refused = count_dropped LossReason.error ∷ []

  archive_best_effort-losses :
      (o : Output F) (a : Appended) → archive_best_effort a ≡ losses (inr o) a
  unfolding archive_best_effort
  archive_best_effort-losses o Appended.written = refl
  archive_best_effort-losses o Appended.unavailable = refl
  archive_best_effort-losses o Appended.deadline = refl
  archive_best_effort-losses o Appended.refused = refl

  mint_and_archive_lem :
      (out : Outcome → String → Output F) (eval_id : Option String) (a b : Appended)
      (r : PolicyError ⊎ Outcome)
      → ((mint_and_archive fl out eval_id a r).0 ≡ (mint_and_archive fl out eval_id b r).0)
        × ((mint_and_archive fl out eval_id a r).1
            ≡ losses (mint_and_archive fl out eval_id a r).0 a)
  unfolding mint_and_archive
  mint_and_archive_lem out eval_id a b (inl e) = (refl, refl)
  mint_and_archive_lem out none a b (inr o) = (refl, refl)
  mint_and_archive_lem out (some x) a b (inr o) = (refl, archive_best_effort-losses (out o x) a)

  decide_on_lem :
      (mode : String) (i : Input) (found : Option (Session F × Bool)) (eval_id : Option String)
      (a b : Appended)
      → ((decide_on fl cal mode i found eval_id a).0 ≡ (decide_on fl cal mode i found eval_id b).0)
        × ((decide_on fl cal mode i found eval_id a).1
            ≡ losses (decide_on fl cal mode i found eval_id a).0 a)
  unfolding decide_on
  decide_on_lem mode i none eval_id a b = (refl, refl)
  decide_on_lem mode i (some (sess, found)) eval_id a b = mint_and_archive_lem _ eval_id a b _

  -- What `Decide` answers does not depend on what the archive answers, be it done, missing, late
  -- or refused. When a decision is answered, the loss meter is called once if there is an archive,
  -- with the record written when the archive took it, dropped for the deadline when it was out of
  -- time and dropped for an error when it refused, and not at all if there is no archive; when the
  -- request fails it is not called.
  pub decide-best_effort :
      (mode : String) (sessions : String → String → Option (Session F × Bool))
      (eval_id : Option String) (a b : Appended) (i : Input)
      → ((decide fl cal mode sessions eval_id a i).0 ≡ (decide fl cal mode sessions eval_id b i).0)
        × ((decide fl cal mode sessions eval_id a i).1
            ≡ losses (decide fl cal mode sessions eval_id a i).0 a)
  unfolding decide
  decide-best_effort mode sessions eval_id a b i = elim (Bool-cases (i.tenant_id == "")) [
    | inl no_tenant ↦ rw no_tenant (refl, refl)
    | inr tenant ↦ elim (Bool-cases (i.action == "")) [
      | inl no_action ↦ rw (tenant, no_action) (refl, refl)
      | inr action ↦
          rw (tenant, action)
            (decide_on_lem mode i (sessions i.tenant_id i.session_token) eval_id a b)
    ]
  ]

  mint_and_archive_ok :
      (out : Outcome → String → Output F) (eval_id : Option String) (a : Appended)
      (r : PolicyError ⊎ Outcome) (o : Output F)
      → (mint_and_archive fl out eval_id a r).0 ≡ inr o
      → (x : Outcome) × (id : String) × (r ≡ inr x) × (out x id ≡ o)
  unfolding mint_and_archive
  mint_and_archive_ok out eval_id a (inl e) o h = absurd (ground arith)
  mint_and_archive_ok out none a (inr x) o h = absurd (ground arith)
  mint_and_archive_ok out (some id) a (inr x) o h = (x, id, refl, ground arith)

  -- A decision that is answered rests on an outcome of the policy for the session that was found.
  decide_ok :
      (mode : String) (sessions : String → String → Option (Session F × Bool))
      (eval_id : Option String) (a : Appended) (i : Input) (sess : Session F) (found : Bool)
      (o : Output F)
      → sessions i.tenant_id i.session_token ≡ some (sess, found)
      → (decide fl cal mode sessions eval_id a i).0 ≡ inr o
      → (x : Outcome) × (apply fl cal (judge fl cal sess.state i.action) mode ≡ inr x)
        × (o.decision ≡ x.decision)
        × (o.shadow_decision ≡ x.shadow)
  unfolding decide decide_on
  decide_ok mode sessions eval_id a i sess found o answered h =
      elim (Bool-cases (i.tenant_id == "")) [
        | inl no_tenant ↦ absurd (ground arith)
        | inr tenant ↦ elim (Bool-cases (i.action == "")) [
          | inl no_action ↦ absurd (ground arith)
          | inr action ↦
              let out : Outcome → String → Output F =
                λ x id. output_of fl mode id sess found (judge fl cal sess.state i.action) x in
              let reached : decide fl cal mode sessions eval_id a i
                  ≡ mint_and_archive fl out eval_id a
                      (apply fl cal (judge fl cal sess.state i.action) mode) =
                simp (tenant, action, answered) in
              let (x, id, applied, same) =
                mint_and_archive_ok out eval_id a _ o (sym (ap (λ r. r.0) reached) ∙ h) in
              (x, applied, ap (λ y. y.decision) (sym same), ap (λ y. y.shadow_decision) (sym same))
        ]
      ]

  -- The verdict of an output: what monitor mode would have decided, or what enforce mode did.
  abbrev pub output_verdict : Output F → Decision
  output_verdict o = elim o.shadow_decision [ none ↦ o.decision | some d ↦ d ]

  -- When the calibration asks for at least one channel to block, and the session port finds no
  -- session and answers with the empty one, then no decision that is answered is to block, nor is
  -- its shadow: a token without a session is never blocked.
  pub decide-unfound :
      (mode : String) (sessions : String → String → Option (Session F × Bool))
      (eval_id : Option String) (a : Appended) (i : Input) (o : Output F)
      → 0 < cal.min_channels_to_block
      → sessions i.tenant_id i.session_token ≡ some (no_session fl, false)
      → (decide fl cal mode sessions eval_id a i).0 ≡ inr o
      → (o.decision ≢ Decision.block) × (output_verdict o ≢ Decision.block)
  decide-unfound mode sessions eval_id a i o channels answered h =
      let (x, applied, same, same_shadow) =
        decide_ok mode sessions eval_id a i (no_session fl) false o answered h in
      let restraint =
        apply-uncorroborated fl cal (no_session fl).state i.action mode x channels applied in
      (rw same restraint.0, ground (arith, same, same_shadow, restraint.1))

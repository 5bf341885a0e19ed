-- ===== src/Http/BrowserAnswers.antt =====
-- What the browser's endpoints answer, and what they leave in the session store.
use ghost_trace.Prelude.{
  ℕ, ◌+◌, ◌/◌, ◌^◌, ◌≡◌, inl, inr, refl, ap, sym, ◌∙◌, String, List, [], ◌∷◌, Option, none, some,
  arith, Option-cases, string_comparable,
}
use ghost_trace.Prelude.Float.{Float64}
use ghost_trace.Prelude.Dict.{lookup, lookup-insert_self}
use ghost_trace.Session.{with_token, Store, Entry, Identity, Client, create, new_state}
use ghost_trace.Tenant.{Tenant, Registry, new, by_site_key}
use ghost_trace.Tenant.Keys.{Has, new-keys}
use ghost_trace.Collector.Batch.{Outside, publish, ingest_telemetry}
use ghost_trace.Collector.{TelemetryEnvelope, Copied, absorb}
use ghost_trace.Collector.Start.{
  StartOutside, StartEffect, archive_start, build_session_start, start_session,
}
use ghost_trace.Http.{Request, WriterCall, write_header, sent_status}
use ghost_trace.Http.Auth.{Payload, result_body, write_json}
use ghost_trace.Http.Browser.{
  SessionsRequest, CollectPolicy, SessionsResponse, WireBatch, client_of, envelope_of,
  handle_sessions, answer_ingest, handle_telemetry,
}

module _ {F : Type 0} (fl : Float64 F) where
  -- The session that a Create leaves behind its token.
  create-lookup :
      (new_token new_id : Option String) (started created : ℕ) (tenant_id page_path : String)
      (client : Client) (s : Store F) (token : String) (ident : Identity)
      → (create fl new_token new_id started created tenant_id page_path client s).1
        ≡ some (token, ident)
      → (e : Entry F) × (lookup token
            (create fl new_token new_id started created tenant_id page_path client s).0.by_token
          ≡ some e)
        × (new_token ≡ some token)
        × (new_id ≡ some ident.id)
        × (ident.tenant_id ≡ tenant_id)
        × (ident.started_at ≡ started)
        × (ident.page_path ≡ page_path)
        × (e.state.tenant_id ≡ tenant_id)
        × (e.state.id ≡ ident.id)
        × (e.expires_at ≡ created + s.ttl)
  unfolding create
  create-lookup none new_id started created tenant_id page_path client s token ident h =
      absurd (ground arith)
  create-lookup (some t) none started created tenant_id page_path client s token ident h =
      absurd (ground arith)
  create-lookup (some t) (some i) started created tenant_id page_path client s token ident h =
      let e : Entry F = record {
        state = new_state fl i tenant_id page_path client started;
        expires_at = created + s.ttl;
      } in
      let same : t ≡ token = ground arith in
      let is_ident : record {
        id = i;
        tenant_id = tenant_id;
        page_path = page_path;
        started_at = started;
      }
          ≡ ident =
        ground arith in
      (
        e,
        rw (← same) (lookup-insert_self t e s.by_token),
        ap some same,
        ap (λ (q : Identity). some q.id) is_ident,
        sym (ap (λ (q : Identity). q.tenant_id) is_ident),
        sym (ap (λ (q : Identity). q.started_at) is_ident),
        sym (ap (λ (q : Identity). q.page_path) is_ident),
        refl,
        ap (λ (q : Identity). q.id) is_ident,
        refl,
      )

  start_session-created :
      (o : StartOutside F) (tenant_id page_path : String) (client : Client) (s : Store F)
      (token : String) (ident : Identity)
      → (create fl o.new_token o.new_id o.started_at o.created_at tenant_id page_path client s).1
        ≡ some (token, ident)
      → start_session fl o tenant_id page_path client s ≡ (
        (create fl o.new_token o.new_id o.started_at o.created_at tenant_id page_path client s).0,
        some token,
        archive_start fl o (build_session_start ident client),
      )
  unfolding start_session
  start_session-created o tenant_id page_path client s token ident e = rw (e, start_session) refl

  module _ (ts : List Tenant) (tenants : Registry) (session_ttl : ℕ) (collect : CollectPolicy)
      (o : StartOutside F) where
    abbrev pub opened :
        Option SessionsRequest
        → Store F
        → Store F × List (WriterCall (Payload SessionsResponse)) × List StartEffect
    opened body s = handle_sessions fl tenants session_ttl collect o body s

    -- The start record of the session that was opened.
    abbrev pub StartsWith : Tenant → SessionsRequest → List StartEffect → Identity → Type 0
    StartsWith t req effects ident =
        (ident.tenant_id ≡ t.id)
        × (ident.page_path ≡ req.page_path)
        × (effects ≡ archive_start fl o (build_session_start ident (client_of req)))

    -- What a request comes to whose session was created.
    opened-created :
        (body : Option SessionsRequest) (s : Store F) (req : SessionsRequest) (t : Tenant)
        (token : String) (ident : Identity)
        → body ≡ some req
        → by_site_key tenants req.site_key ≡ some t
        → (create fl o.new_token o.new_id o.started_at o.created_at t.id req.page_path
            (client_of req)
            s).1
          ≡ some (token, ident)
        → opened body s ≡ (
          (create fl o.new_token o.new_id o.started_at o.created_at t.id req.page_path
              (client_of req)
              s).0,
          write_json 200 (
              result_body (record {
                session_token = token;
                expires_in = session_ttl / 10 ^ 9;
                collect_policy = collect;
              })),
          archive_start fl o (build_session_start ident (client_of req)),
        )
    unfolding handle_sessions
    opened-created body s req t token ident decoded known created =
        let step =
          start_session-created o t.id req.page_path (client_of req) s token ident created in
        let response : List (WriterCall (Payload SessionsResponse)) = write_json 200 (
          result_body (record {
            session_token = token;
            expires_in = session_ttl / 10 ^ 9;
            collect_policy = collect;
          })) in
        rw (decoded, handle_sessions, known, step) (ap (λ q. (q.0, response, q.2)) step)

    pub handle_sessions-opened :
        (body : Option SessionsRequest) (s : Store F)
        → new ts ≡ inr tenants
        → sent_status (opened body s).1 ≡ 200
        → (t : Tenant) × (req : SessionsRequest) × (token : String) × (e : Entry F)
          × (ident : Identity) × Has t ts
          × (t.site_key ≡ req.site_key)
          × (body ≡ some req)
          × ((opened body s).1
              ≡ write_json 200 (
                  result_body (record {
                    session_token = token;
                    expires_in = session_ttl / 10 ^ 9;
                    collect_policy = collect;
                  })))
          × (lookup token (opened body s).0.by_token ≡ some e)
          × (e.state.tenant_id ≡ t.id)
          × (e.state.id ≡ ident.id)
          × (e.expires_at ≡ o.created_at + s.ttl)
          × StartsWith t req (opened body s).2 ident
    unfolding handle_sessions sent_status start_session
    handle_sessions-opened body s made h = elim (Option-cases body) [
      | inl malformed ↦ absurd (omega (arith, rw (malformed, handle_sessions) at h))
      | inr (req, decoded) ↦ elim (Option-cases (by_site_key tenants req.site_key)) [
        | inl unknown ↦ absurd (omega (arith, rw (decoded, handle_sessions, unknown) at h))
        | inr (t, known) ↦
            let opening =
              create fl o.new_token o.new_id o.started_at o.created_at t.id req.page_path
                (client_of req) s in
            elim (Option-cases opening.1) [
              | inl failed ↦
                  absurd (
                    omega (arith, rw (decoded, handle_sessions, known, start_session, failed) at h))
              | inr ((token, ident), created) ↦
                  let (held, same) = (new-keys ts tenants req.site_key t made).1.0 known in
                  let (e, there, drawn, named, whose, when, page, of_tenant, is_id, until) =
                    create-lookup o.new_token o.new_id o.started_at o.created_at t.id req.page_path
                      (client_of req) s token ident created in
                  let step = opened-created body s req t token ident decoded known created in
                  (
                    t,
                    req,
                    token,
                    e,
                    ident,
                    held,
                    same,
                    decoded,
                    ap (λ q. q.1) step,
                    ap (λ q. lookup token q.0.by_token) step ∙ there,
                    of_tenant,
                    is_id,
                    until,
                    (whose, page, ap (λ q. q.2) step),
                  )
            ]
      ]
    ]

module _ {F G : Type 0} (fl : Float64 F) (narrow : F → G) (widen : G → F) where
  -- The store's With has one error, so that the branch for any other is not taken.
  publish-accepted :
      (o : Outside F) (env : TelemetryEnvelope) (c : Option (Copied fl))
      → answer_ingest fl narrow widen (publish fl narrow widen o env c).0 ≡ write_header 202 ∷ []
  unfolding publish
  publish-accepted o env none = refl
  publish-accepted o env (some c) = refl

  ingest_telemetry-accepted :
      (o : Outside F) (env : TelemetryEnvelope) (s : Store F)
      → answer_ingest fl narrow widen (ingest_telemetry fl narrow widen o env s).1.0
        ≡ write_header 202 ∷ []
  unfolding ingest_telemetry
  ingest_telemetry-accepted o env s =
      publish-accepted o env (with_token env.session_token (absorb fl env) o.now s).1

  -- The response to a batch tells nothing of the sessions: two stores, with whatever the calls meet
  -- outside, give one response, so that a token that is unknown or expired cannot be told from a
  -- live one. A body that does not decode changes no session and sends nothing.
  pub handle_telemetry-uniform :
      (o o' : Outside F) (r : Request) (body : Option WireBatch) (s s' : Store F)
      → ((handle_telemetry fl narrow widen o r body s).1
          ≡ (handle_telemetry fl narrow widen o' r body s').1)
        × (body ≡ none
            → ((handle_telemetry fl narrow widen o r body s).0 ≡ s)
              × ((handle_telemetry fl narrow widen o r body s).2 ≡ []))
  unfolding handle_telemetry
  handle_telemetry-uniform o o' r none s s' = (refl, λ _. (refl, refl))
  handle_telemetry-uniform o o' r (some b) s s' = (
    ingest_telemetry-accepted o (envelope_of r b) s
        ∙ sym (ingest_telemetry-accepted o' (envelope_of r b) s'),
    λ malformed. absurd (ground arith),
  )

-- ===== src/Http/Middleware.antt =====
-- middleware.go, logging.go and `Collect` of metrics.go.
use ghost_trace.Prelude.{
  ℕ, Bool, true, false, String, List, [], ◌∷◌, ◌++◌, Option, none, some, ◌==◌, string_comparable,
  if◌then◌else◌,
}
use ghost_trace.Http.{
  Request, WriterCall, set_header, write_header, write, add_header, Observation, sampled, logged,
  panic_logged, Served, Handler, Middleware,
}

-- `Chain`: the loop from the last to the first, which leaves the first outermost.
unfoldable pub chain : {D S : Type 0} → Handler D S → List (Middleware D S) → Handler D S
chain h [] = h
chain h (mw ∷ mws) = mw (chain h mws)

abbrev pub request_id_header : String
request_id_header = "X-Request-Id"

-- `newRequestID`, on what the entropy source gave.
abbrev pub new_request_id : Option String → String
new_request_id none = "unknown-request-id"
new_request_id (some id) = id

abbrev pub resolve_request_id : Option String → Request → String
resolve_request_id fresh r =
    if r.header request_id_header == "" then new_request_id fresh else r.header request_id_header

-- statusRecorder, whose writer is the one it wraps.
pub record StatusRecorder : Type 0 where
  pub status : ℕ
  pub wrote : Bool

abbrev pub record_call : {D : Type 0} → WriterCall D → StatusRecorder → StatusRecorder
record_call (write_header code) sr = if sr.wrote then sr else record { status = code; wrote = true }
record_call (write _) sr = if sr.wrote then sr else record { status = 200; wrote = true }
record_call (set_header _ _) sr = sr
record_call (add_header _ _) sr = sr

unfoldable pub record_calls : {D : Type 0} → List (WriterCall D) → StatusRecorder → StatusRecorder
record_calls [] sr = sr
record_calls (c ∷ cs) sr = record_calls cs (record_call c sr)

unfoldable pub effective_status : StatusRecorder → ℕ
effective_status sr = if sr.wrote then sr.status else 200

-- The recorder at the end of a handler that was given a new one.
abbrev pub recorded_status : {D : Type 0} → List (WriterCall D) → ℕ
recorded_status calls = effective_status (record_calls calls (record { status = 0; wrote = false }))

abbrev pub route_label : Request → String
route_label r = if r.pattern == "" then "unmatched" else r.pattern

-- `http.Error(w, "internal error", 500)`
abbrev pub internal_error : {D : Type 0} → (String → D) → List (WriterCall D)
internal_error text =
    set_header "Content-Type" "text/plain; charset=utf-8"
    ∷ set_header "X-Content-Type-Options" "nosniff"
    ∷ write_header 500
    ∷ write (text "internal error")
    ∷ []

module _ {D S : Type 0} where
  unfoldable pub request_id : Option String → Middleware D S
  request_id fresh next r s =
      let id = resolve_request_id fresh r in
      let served = next (record r { context_id = id }) s in
      record served { calls = set_header request_id_header id ∷ served.calls }

  -- A panic goes through: nothing after the call of `next` is run.
  unfoldable pub observe_after : (Served D S → Observation) → Served D S → Served D S
  observe_after what served =
      if served.panicked
      then served
      else record served { observed = served.observed ++ (what served ∷ []) }

  unfoldable pub collect : Middleware D S
  collect next r s =
      observe_after (λ served. sampled (route_label r) (recorded_status served.calls)) (next r s)

  unfoldable pub logging : Middleware D S
  logging next r s =
      observe_after
        (λ served.
          logged r.method (route_label r) r.path (recorded_status served.calls) r.context_id)
        (next r s)

  unfoldable pub recovery : (String → D) → Middleware D S
  recovery text next r s =
      let served = next r s in
      if served.panicked
      then record served {
        calls = served.calls ++ internal_error text;
        panicked = false;
        observed = served.observed ++ (panic_logged r.method r.path r.context_id ∷ []);
      }
      else served

  -- The chain of the services' main functions.
  abbrev pub service_chain : (String → D) → Option String → Handler D S → Handler D S
  service_chain text fresh h = chain h (request_id fresh ∷ recovery text ∷ logging ∷ collect ∷ [])

-- ===== src/Http/Service.antt =====
-- What the chain of every service does around a handler.
use mathlib.Core.List.{append_assoc}
use ghost_trace.Prelude.{
  ℕ, ◌≡◌, inl, inr, refl, ap, sym, ◌∙◌, true, false, String, List, [], ◌∷◌, ◌++◌, Option, arith,
  Bool-cases, All, string_comparable, if◌then◌else◌,
}
use ghost_trace.Http.{
  Request, WriterCall, set_header, add_header, write_header, write, Observation, sampled, logged,
  panic_logged, Served, Handler, sent_status, has_begun, is_informational,
}
use ghost_trace.Http.Middleware.{
  chain, request_id_header, resolve_request_id, record_calls, effective_status, recorded_status,
  route_label, request_id, observe_after, collect, logging, internal_error, recovery, service_chain,
}

record_calls-wrote :
    {D : Type 0} (calls : List (WriterCall D)) (status : ℕ)
    → record_calls calls (record { status = status; wrote = true })
      ≡ record { status = status; wrote = true }
unfolding record_calls
record_calls-wrote [] status = refl
record_calls-wrote (set_header k v ∷ calls) status = record_calls-wrote calls status
record_calls-wrote (add_header k v ∷ calls) status = record_calls-wrote calls status
record_calls-wrote (write_header code ∷ calls) status = record_calls-wrote calls status
record_calls-wrote (write d ∷ calls) status = record_calls-wrote calls status

-- The code of a handler's first WriteHeader, informational or not; 200 where a Write comes before
-- it, or where there is none.
unfoldable pub first_code : {D : Type 0} → List (WriterCall D) → ℕ
first_code [] = 200
first_code (set_header _ _ ∷ calls) = first_code calls
first_code (add_header _ _ ∷ calls) = first_code calls
first_code (write_header code ∷ calls) = code
first_code (write _ ∷ calls) = 200

-- A call that is not the sending of a 1xx header.
abbrev pub IsFinal : {D : Type 0} → WriterCall D → Type 0
IsFinal c = (code : ℕ) → c ≡ write_header code → is_informational code ≡ false

recorded_status-first_code :
    {D : Type 0} (calls : List (WriterCall D)) → recorded_status calls ≡ first_code calls
unfolding record_calls effective_status first_code
recorded_status-first_code [] = refl
recorded_status-first_code (set_header k v ∷ calls) = recorded_status-first_code calls
recorded_status-first_code (add_header k v ∷ calls) = recorded_status-first_code calls
recorded_status-first_code (write_header code ∷ calls) =
    ap effective_status (record_calls-wrote calls code)
recorded_status-first_code (write d ∷ calls) = ap effective_status (record_calls-wrote calls 200)

first_code-sent_status :
    {D : Type 0} (calls : List (WriterCall D))
    → All IsFinal calls
    → first_code calls ≡ sent_status calls
unfolding first_code sent_status
first_code-sent_status [] final = refl
first_code-sent_status (set_header k v ∷ calls) final = first_code-sent_status calls final.1
first_code-sent_status (add_header k v ∷ calls) final = first_code-sent_status calls final.1
first_code-sent_status (write_header code ∷ calls) final = rw (final.0 code refl) refl
first_code-sent_status (write d ∷ calls) final = refl

sent_status-append :
    {D : Type 0} (calls more : List (WriterCall D))
    → sent_status (calls ++ more)
      ≡ (if has_begun calls then sent_status calls else sent_status more)
unfolding sent_status has_begun
sent_status-append [] more = refl
sent_status-append (set_header k v ∷ calls) more = sent_status-append calls more
sent_status-append (add_header k v ∷ calls) more = sent_status-append calls more
sent_status-append (write_header code ∷ calls) more = elim (Bool-cases (is_informational code)) [
  | inl informational ↦ rw informational (sent_status-append calls more)
  | inr final ↦ rw final refl
]
sent_status-append (write d ∷ calls) more = refl

observe_after-returned :
    {D S : Type 0} (what : Served D S → Observation) (served : Served D S)
    → served.panicked ≡ false
    → observe_after what served ≡ record served { observed = served.observed ++ (what served ∷ []) }
unfolding observe_after
observe_after-returned what served e = ground arith

observe_after-panicked :
    {D S : Type 0} (what : Served D S → Observation) (served : Served D S)
    → served.panicked ≡ true
    → observe_after what served ≡ served
unfolding observe_after
observe_after-panicked what served e = ground arith

module _ {D S : Type 0} (text : String → D) (fresh : Option String) (h : Handler D S) where
  abbrev pub identified : Request → Request
  identified r = record r { context_id = resolve_request_id fresh r }

  -- What one request comes to: the response, and the entries that are made about it.
  abbrev pub whole : Request → S → Served D S
  whole r s = service_chain text fresh h r s

  -- The entries about a request whose handler returned: one sample and one line.
  abbrev pub returned_entries : Request → ℕ → List Observation
  returned_entries r status =
      sampled (route_label r) status
      ∷ logged r.method (route_label r) r.path status (resolve_request_id fresh r)
      ∷ []

  inner : Handler D S
  inner = logging (collect h)

  inner-returned :
      (r : Request) (s : S)
      → (h r s).panicked ≡ false
      → inner r s ≡ record (h r s) {
        observed =
            (h r s).observed
            ++ (sampled (route_label r) (recorded_status (h r s).calls)
                ∷ logged r.method
                    (route_label r)
                    r.path
                    (recorded_status (h r s).calls)
                    r.context_id
                ∷ []);
      }
  unfolding inner logging collect
  inner-returned r s e =
      let sample : Served D S → Observation =
        λ served. sampled (route_label r) (recorded_status served.calls) in
      let line : Served D S → Observation = λ served.
        logged r.method (route_label r) r.path (recorded_status served.calls) r.context_id in
      let once : Served D S = record (h r s) {
        observed = (h r s).observed ++ (sample (h r s) ∷ []);
      } in
      ap (observe_after line) (observe_after-returned sample (h r s) e)
      ∙ observe_after-returned line once e
      ∙ ap (λ entries. record (h r s) { observed = entries })
          (append_assoc (h r s).observed (sample (h r s) ∷ []) (line (h r s) ∷ []))

  inner-panicked : (r : Request) (s : S) → (h r s).panicked ≡ true → inner r s ≡ h r s
  unfolding inner logging collect
  inner-panicked r s e =
      let sample : Served D S → Observation =
        λ served. sampled (route_label r) (recorded_status served.calls) in
      let line : Served D S → Observation = λ served.
        logged r.method (route_label r) r.path (recorded_status served.calls) r.context_id in
      ap (observe_after line) (observe_after-panicked sample (h r s) e)
      ∙ observe_after-panicked line (h r s) e

  recovery_lem :
      (r : Request) (s : S) (served : Served D S)
      → inner r s ≡ served
      → served.panicked ≡ false
      → recovery text inner r s ≡ served
  unfolding recovery
  recovery_lem r s served same e = ground arith

  recovery_panicked :
      (r : Request) (s : S) (served : Served D S)
      → inner r s ≡ served
      → served.panicked ≡ true
      → recovery text inner r s ≡ record served {
        calls = served.calls ++ internal_error text;
        panicked = false;
        observed = served.observed ++ (panic_logged r.method r.path r.context_id ∷ []);
      }
  unfolding recovery
  recovery_panicked r s served same e = ground arith

  -- The response of a request begins with the id that its entries carry, and the handler is given
  -- that id. A handler that returns is sampled once and logged once, each time with the code of its
  -- first WriteHeader, or 200 where a Write comes before it or it makes neither, and its calls are
  -- not changed: where the handler sends no 1xx header, that code is the status that the response
  -- has. A handler that panics does not bring the service down: the panic is logged, the status is
  -- 500 unless it had been decided, and the request is neither sampled nor logged.
  pub service_chain-observed :
      (r : Request) (s : S)
      → ((whole r s).panicked ≡ false)
        × ((whole r s).state ≡ (h (identified r) s).state)
        × ((h (identified r) s).panicked ≡ false
            → ((whole r s).calls
                ≡ set_header request_id_header (resolve_request_id fresh r)
                  ∷ (h (identified r) s).calls)
              × ((whole r s).observed
                  ≡ (h (identified r) s).observed
                    ++ returned_entries r (first_code (h (identified r) s).calls))
              × (All IsFinal (h (identified r) s).calls
                  → first_code (h (identified r) s).calls ≡ sent_status (whole r s).calls))
        × ((h (identified r) s).panicked ≡ true
            → (sent_status (whole r s).calls ≡ (
                if has_begun (h (identified r) s).calls
                then sent_status (h (identified r) s).calls
                else 500))
              × ((whole r s).observed
                  ≡ (h (identified r) s).observed
                    ++ (panic_logged r.method r.path (resolve_request_id fresh r) ∷ [])))
  unfolding chain request_id inner sent_status
  service_chain-observed r s =
      let served = h (identified r) s in
      elim (Bool-cases served.panicked) [
        | inl panics ↦
            let e =
              recovery_panicked (identified r) s served (inner-panicked (identified r) s panics)
                panics in
            (
              ap (λ v. v.panicked) e,
              ap (λ v. v.state) e,
              λ returns. absurd (ground arith),
              λ _. (
                ap (λ v. sent_status v.calls) e
                    ∙ sent_status-append served.calls (internal_error text),
                ap (λ v. v.observed) e,
              ),
            )
        | inr returns ↦
            let e =
              recovery_lem (identified r) s _ (inner-returned (identified r) s returns) returns in
            (
              ap (λ v. v.panicked) e ∙ returns,
              ap (λ v. v.state) e,
              λ _. (
                ap (λ v. set_header request_id_header (resolve_request_id fresh r) ∷ v.calls) e,
                ap (λ v. v.observed) e
                    ∙ ap (λ n. served.observed ++ returned_entries r n)
                        (recorded_status-first_code served.calls),
                λ final.
                    first_code-sent_status served.calls final
                    ∙ sym (ap (λ v. sent_status v.calls) e),
              ),
              λ panics. absurd (ground arith),
            )
      ]

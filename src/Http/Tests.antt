-- ===== src/Http/Tests.antt =====
-- A handler of early hints in the chain, and a page of another origin.
use ghost_trace.Prelude.{
  ℕ, ◌+◌, ◌≡◌, ◌≢◌, refl, arith, true, false, List, [], ◌∷◌, ◌++◌, All, some, String, ◌==◌,
  string_comparable, if◌then◌else◌,
}
use ghost_trace.Http.{
  Request, set_header, write_header, sampled, logged, panic_logged, Handler, sent_status, has_begun,
}
use ghost_trace.Http.Middleware.{
  request_id_header, resolve_request_id, record_calls, effective_status, request_id, recovery,
  logging, collect, observe_after, chain,
}
use ghost_trace.Http.Service.{
  whole, returned_entries, identified, first_code, IsFinal, service_chain-observed,
}
use ghost_trace.Http.Cors.{allow_origin, is_preflight, cors, NamesListed, cors-NamesListed}

abbrev sample_header : String → String
sample_header name =
    if name == "Authorization"
    then "Bearer sk_acme"
    else if name == "Origin"
    then "https://shop.example"
    else ""

abbrev sample_request : Request
sample_request = record {
  method = "POST";
  path = "/v1/decisions";
  pattern = "POST /v1/decisions";
  header = sample_header;
  context_id = "";
}

-- A handler that sends early hints, and panics for an empty identifier.
abbrev hints : Handler String ℕ
hints r n = record {
  calls = set_header "Content-Type" "text/plain" ∷ write_header 103 ∷ write_header 200 ∷ [];
  state = n + 1;
  panicked = r.context_id == "";
  observed = [];
}

abbrev as_text : String → String
as_text s = s

-- The status that the client gets is not the one that is sampled and logged.
hinted_status : sent_status (whole as_text (some "r_1") hints sample_request 4).calls ≡ 200
unfolding sent_status request_id recovery logging collect observe_after chain
hinted_status = refl

hinted_entries :
    (whole as_text (some "r_1") hints sample_request 4).observed
    ≡ sampled "POST /v1/decisions" 103
      ∷ logged "POST" "POST /v1/decisions" "/v1/decisions" 103 "r_1"
      ∷ []
unfolding record_calls effective_status request_id recovery logging collect observe_after chain
hinted_entries = refl

service_chain-observed_example :
    ((whole as_text (some "r_1") hints sample_request 4).panicked ≡ false)
    × ((whole as_text (some "r_1") hints sample_request 4).state ≡ 5)
    × (false ≡ false
        → ((whole as_text (some "r_1") hints sample_request 4).calls
            ≡ set_header request_id_header (resolve_request_id (some "r_1") sample_request)
              ∷ (hints (identified as_text (some "r_1") hints sample_request) 4).calls)
          × ((whole as_text (some "r_1") hints sample_request 4).observed
              ≡ [] ++ returned_entries as_text (some "r_1") hints sample_request 103)
          × (All IsFinal (hints (identified as_text (some "r_1") hints sample_request) 4).calls
              → 103 ≡ sent_status (whole as_text (some "r_1") hints sample_request 4).calls))
    × (false ≡ true
        → (sent_status (whole as_text (some "r_1") hints sample_request 4).calls ≡ 200)
          × ((whole as_text (some "r_1") hints sample_request 4).observed
              ≡ []
                ++ (panic_logged "POST" "/v1/decisions"
                      (resolve_request_id (some "r_1") sample_request)
                    ∷ [])))
unfolding has_begun first_code sent_status
service_chain-observed_example = service_chain-observed as_text (some "r_1") hints sample_request 4

abbrev accepts : Handler String ℕ
accepts r n = record { calls = write_header 202 ∷ []; state = n; panicked = false; observed = [] }

abbrev configured : List String
configured = "https://shop.example" ∷ "" ∷ []

silent : All (λ c. (o : String) → c ≢ set_header allow_origin o) (accepts sample_request 4).calls
silent = (λ o e. absurd (ground arith), tt)

cors-NamesListed_example :
    All
      (NamesListed configured sample_request)
      (cors configured "POST, OPTIONS" accepts sample_request 4).calls
    × (is_preflight sample_request ≡ true
        → ((cors configured "POST, OPTIONS" accepts sample_request 4).state ≡ 4)
          × (sent_status (cors configured "POST, OPTIONS" accepts sample_request 4).calls ≡ 204))
cors-NamesListed_example =
    cors-NamesListed String configured "POST, OPTIONS" sample_request accepts 4 silent

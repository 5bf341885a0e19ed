-- ===== src/Http/EndpointTests.antt =====
-- Requests of a page and of an application server, over two tenants.
use ghost_trace.Prelude.{
  ◌↔◌, ℕ, ◌+◌, ◌/◌, ◌^◌, ◌≡◌, ◌≢◌, ◌⊎◌, inr, refl, Bool, true, false, List, [], ◌∷◌, Option, none,
  some, String, ◌==◌, string_comparable, if◌then◌else◌,
}
use ghost_trace.Prelude.Int.{ℤ, negsuc, InInt64, pos}
use ghost_trace.Prelude.Dict.{lookup, insert}
use ghost_trace.Prelude.FixedPoint.{fixed_point}
use ghost_trace.Policy.{Calibration}
use ghost_trace.Session.{Store, Entry, Identity, create, new_store}
use ghost_trace.Tenant.{
  Tenant, Registry, new, by_site_key, by_secret_key, by_secret_from, check_tenants, refusal,
  note_tenant, index_from,
}
use ghost_trace.Tenant.Keys.{Has}
use ghost_trace.Decision.{Session, Appended, no_session}
use ghost_trace.Decision.Recording.{unix_nano, OutcomeRecord, is_valid_outcome, record_outcome}
use ghost_trace.Collector.Batch.{Outside}
use ghost_trace.Collector.Start.{StartOutside, StartEffect, start_session}
use ghost_trace.Http.{Request, WriterCall, sent_status}
use ghost_trace.Http.Auth.{
  strip_fold, bearer_of, bearer_token, caller, Payload, result_body, write_json, write_error,
}
use ghost_trace.Http.Decisions.{DecisionsRequest, OutcomesRequest, handle_outcomes, observed_time}
use ghost_trace.Http.DecisionAnswers.{handled, decided, AnswersTenant, handle_decisions-answers}
use ghost_trace.Http.OutcomeAnswers.{labelled, handle_outcomes-recorded}
use ghost_trace.Http.Browser.{
  SessionsRequest, CollectPolicy, SessionsResponse, handle_sessions, handle_telemetry, WireBatch,
}
use ghost_trace.Http.BrowserAnswers.{
  opened, StartsWith, handle_sessions-opened, handle_telemetry-uniform,
}

abbrev sample_header : String → String
sample_header name =
    if name == "Authorization"
    then "Bearer sk_acme"
    else if name == "Origin"
    then "https://shop.example"
    else ""

abbrev sample_request : Request
sample_request = record {
  method = "POST";
  path = "/v1/decisions";
  pattern = "POST /v1/decisions";
  header = sample_header;
  context_id = "";
}

abbrev acme : Tenant
acme = record { id = "acme"; site_key = "pk_acme"; secret_key = "sk_acme" }

abbrev globex : Tenant
globex = record { id = "globex"; site_key = "pk_globex"; secret_key = "sk_globex" }

abbrev both : List Tenant
both = acme ∷ globex ∷ []

abbrev both_registry : Registry
both_registry = record { all = both; by_site = ("pk_acme", acme) ∷ ("pk_globex", globex) ∷ [] }

both_made : new both ≡ inr both_registry
unfolding new check_tenants refusal note_tenant index_from lookup insert
both_made = refl

abbrev sample_calibration : Calibration ℕ
sample_calibration = record {
  straightness_floor = 900;
  straightness_ceil = 995;
  flight_cv_floor = 450;
  flight_cv_ceil = 120;
  dwell_absent_ms = 12000;
  identical_interval_ratio = 250;
  confidence_segments = 6000;
  confidence_path_px = 1500000;
  confidence_intervals = 20000;
  min_confidence_to_challenge = 300;
  min_confidence_to_block = 600;
  score_to_challenge = 400;
  score_to_block = 700;
  min_channels_to_block = 2;
}

abbrev no_port : String → String → Option (Session ℕ × Bool)
no_port tenant_id token = some (no_session fixed_point, false)

abbrev asked : DecisionsRequest
asked = record { session_token = "st_1"; action = "login"; subject_id = "u_1" }

handle_decisions-answers_example :
    ((handled fixed_point both both_registry sample_calibration "enforce" no_port
          (some "ev_1")
          Appended.written
          sample_request
          (some asked)
        ≡ (write_error 401 "invalid secret_key", []))
      × ((t : Tenant) → Has t both → t.secret_key ≢ bearer_token sample_request))
    ⊎ ((t : Tenant) × Has t both
        × (t.secret_key ≡ bearer_token sample_request)
        × (((some asked ≡ none)
              × (handled fixed_point both both_registry sample_calibration "enforce" no_port
                    (some "ev_1")
                    Appended.written
                    sample_request
                    (some asked)
                  ≡ (write_error 400 "malformed JSON body", [])))
            ⊎ ((req : DecisionsRequest) × (some asked ≡ some req)
                × ((handled fixed_point both both_registry sample_calibration "enforce" no_port
                      (some "ev_1")
                      Appended.written
                      sample_request
                      (some asked)).1
                    ≡ (decided fixed_point both both_registry sample_calibration "enforce" no_port
                        (some "ev_1")
                        Appended.written
                        sample_request
                        t
                        req).1)
                × AnswersTenant fixed_point both both_registry sample_calibration "enforce" no_port
                    (some "ev_1")
                    Appended.written
                    sample_request
                    t
                    req
                    (handled fixed_point both both_registry sample_calibration "enforce" no_port
                      (some "ev_1")
                      Appended.written
                      sample_request
                      (some asked)).0)))
handle_decisions-answers_example =
    handle_decisions-answers fixed_point both both_registry sample_calibration "enforce" no_port
      (some "ev_1") Appended.written sample_request (some asked) both_made

abbrev accept_all : OutcomeRecord → Appended
accept_all rec = Appended.written

-- The first nanosecond that an int64 does not hold, in the year 2262, for every text.
abbrev too_late : String → Option (Option ℤ)
too_late text = some (some (pos 9223372036854775808))

abbrev label : OutcomesRequest
label = record {
  evaluation_id = "ev_1";
  outcome = "abandoned";
  observed_at = "2262-04-11T23:47:16.854775808Z";
}

abbrev label_sent : List (WriterCall (Payload (Unit {0}))) × Option OutcomeRecord
label_sent =
    labelled both both_registry too_late (pos 20) (pos 21) accept_all sample_request (some label)

label_accepted : sent_status label_sent.0 ≡ 202
unfolding handle_outcomes caller strip_fold bearer_of by_secret_key by_secret_from observed_time
    record_outcome is_valid_outcome sent_status
label_accepted = refl

-- It is accepted with 202, and stored as a time of 1677.
stored_time :
    elim label_sent.1 [ none ↦ none | some rec ↦ some rec.observed_at ]
    ≡ some (negsuc 9223372036854775807)
unfolding handle_outcomes caller by_secret_key by_secret_from bearer_of strip_fold observed_time
    record_outcome is_valid_outcome unix_nano
stored_time = refl

handle_outcomes-recorded_example :
    (t : Tenant) × (req : OutcomesRequest) × (rec : OutcomeRecord) × Has t both
    × (t.secret_key ≡ bearer_token sample_request)
    × (some label ≡ some req)
    × (label_sent.1 ≡ some rec)
    × (accept_all rec ≡ Appended.written)
    × (rec.tenant_id ≡ t.id)
    × (rec.evaluation_id ≡ req.evaluation_id)
    × (rec.outcome ≡ req.outcome)
    × (is_valid_outcome rec.outcome ≡ true)
    × ((at_time : ℤ)
        → observed_time too_late req.observed_at ≡ some (some at_time)
        → (rec.observed_at ≡ at_time) ↔ InInt64 at_time)
handle_outcomes-recorded_example =
    handle_outcomes-recorded both both_registry too_late (pos 20) (pos 21) accept_all sample_request
      (some label) both_made label_accepted

abbrev page_request : SessionsRequest
page_request = record {
  site_key = "pk_globex";
  page_path = "/checkout";
  pointer = "fine";
  touch = false;
  viewport = pos 1280 ∷ pos 720 ∷ [];
  tz_offset = pos 60;
  reduced_motion = false;
}

abbrev policy : CollectPolicy
policy = record { pointer_hz = pos 20; batch_ms = pos 2000; types = "pointer" ∷ [] }

abbrev met : StartOutside ℕ
met = record {
  new_token = some "st_2";
  new_id = some "s_2";
  started_at = 10;
  created_at = 11;
  pressure = 0;
  append_answer = Appended.refused;
}

abbrev fresh_store : Store ℕ
fresh_store = new_store fixed_point 100

abbrev page_opened : Store ℕ × List (WriterCall (Payload SessionsResponse)) × List StartEffect
page_opened =
    opened fixed_point both both_registry 1800000000000 policy met (some page_request) fresh_store

page_accepted : sent_status page_opened.1 ≡ 200
unfolding handle_sessions by_site_key lookup start_session create sent_status
page_accepted = refl

handle_sessions-opened_example :
    (t : Tenant) × (req : SessionsRequest) × (token : String) × (e : Entry ℕ) × (ident : Identity)
    × Has t both
    × (t.site_key ≡ req.site_key)
    × (some page_request ≡ some req)
    × (page_opened.1
        ≡ write_json 200 (
            result_body (record {
              session_token = token;
              expires_in = 1800000000000 / 10 ^ 9;
              collect_policy = policy;
            })))
    × (lookup token page_opened.0.by_token ≡ some e)
    × (e.state.tenant_id ≡ t.id)
    × (e.state.id ≡ ident.id)
    × (e.expires_at ≡ met.created_at + fresh_store.ttl)
    × StartsWith fixed_point both both_registry 1800000000000 policy met t req page_opened.2 ident
handle_sessions-opened_example =
    handle_sessions-opened fixed_point both both_registry 1800000000000 policy met
      (some page_request) fresh_store both_made page_accepted

abbrev identity_ℕ : ℕ → ℕ
identity_ℕ n = n

abbrev calm : Outside ℕ
calm = record {
  now = 1;
  written_at = 2;
  received_at = 3;
  put_answer = Appended.written;
  pressure = 0;
  append_answer = Appended.written;
}

abbrev batch : WireBatch
batch = record {
  session_token = "st_2";
  seq = 1;
  sent_at_ms = 10;
  page_path = "/checkout";
  viewport = [];
  events = [];
}

-- The store with the session that was opened, and an empty one.
handle_telemetry-uniform_example :
    ((handle_telemetry fixed_point identity_ℕ identity_ℕ calm sample_request
        (some batch)
        page_opened.0).1
      ≡ (handle_telemetry fixed_point identity_ℕ identity_ℕ
          (record calm { append_answer = Appended.refused })
          sample_request
          (some batch)
          fresh_store).1)
    × (some batch ≡ none
        → ((handle_telemetry fixed_point identity_ℕ identity_ℕ calm sample_request
              (some batch)
              page_opened.0).0
            ≡ page_opened.0)
          × ((handle_telemetry fixed_point identity_ℕ identity_ℕ calm sample_request
                (some batch)
                page_opened.0).2
              ≡ []))
handle_telemetry-uniform_example =
    handle_telemetry-uniform fixed_point identity_ℕ identity_ℕ calm
      (record calm { append_answer = Appended.refused }) sample_request (some batch) page_opened.0
      fresh_store

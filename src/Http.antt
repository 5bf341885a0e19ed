-- ===== src/Http.antt =====
-- libs/middleware: the chain around every service's handlers. A handler is the calls that it makes
-- on the response writer; net/http's own part is which of them decides the status. The readings of
-- the clock are not modelled.
mod Tests
mod EndpointTests
pub mod Middleware
pub mod Cors
pub mod Auth
pub mod Decisions
pub mod DecisionAnswers
pub mod OutcomeAnswers
pub mod Browser
pub mod BrowserAnswers
pub mod Service
use ghost_trace.Prelude.{
  ℕ, ℕ_comparable, leb, not, Bool, true, false, ◌&&◌, ◌||◌, String, List, [], ◌∷◌, ◌++◌, Option,
  none, some, ◌==◌, string_comparable, if◌then◌else◌,
}

-- http.Request: the route that the mux matched is its pattern; `context_id` is the context's value.
pub record Request : Type 0 where
  pub method : String
  pub path : String
  pub pattern : String
  pub header : String → String
  pub context_id : String

-- A call on the http.ResponseWriter.
pub data WriterCall (D : Type 0) : Type 0 where
  set_header : String → String → WriterCall D
  add_header : String → String → WriterCall D
  write_header : ℕ → WriterCall D
  write : D → WriterCall D

-- A log entry or a metric sample.
pub data Observation : Type 0 where
  sampled : String → ℕ → Observation
  logged : String → String → String → ℕ → String → Observation
  panic_logged : String → String → String → Observation

-- What a handler did, in order, and whether it ended in a panic.
pub record Served (D S : Type 0) : Type 0 where
  pub calls : List (WriterCall D)
  pub state : S
  pub panicked : Bool
  pub observed : List Observation

abbrev pub Handler : Type 0 → Type 0 → Type 0
Handler D S = Request → S → Served D S

abbrev pub Middleware : Type 0 → Type 0 → Type 0
Middleware D S = Handler D S → Handler D S

-- net/http: any number of 1xx headers may be sent before the header that decides the status; 101 is
-- no such header, it decides.
abbrev pub is_informational : ℕ → Bool
is_informational code = leb 100 code && leb code 199 && not (code == 101)

-- net/http: the first WriteHeader that is not informational, or the first Write, decides the status;
-- 200 where there is none.
unfoldable pub sent_status : {D : Type 0} → List (WriterCall D) → ℕ
sent_status [] = 200
sent_status (set_header _ _ ∷ calls) = sent_status calls
sent_status (add_header _ _ ∷ calls) = sent_status calls
sent_status (write_header code ∷ calls) =
    let rest = sent_status calls in if is_informational code then rest else code
sent_status (write _ ∷ calls) = 200

-- The status has been decided.
unfoldable pub has_begun : {D : Type 0} → List (WriterCall D) → Bool
has_begun [] = false
has_begun (set_header _ _ ∷ calls) = has_begun calls
has_begun (add_header _ _ ∷ calls) = has_begun calls
has_begun (write_header code ∷ calls) =
    let rest = has_begun calls in if is_informational code then rest else true
has_begun (write _ ∷ calls) = true

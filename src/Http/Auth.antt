-- ===== src/Http/Auth.antt =====
-- The helpers that libs/decision/http.go and services/collector/internal/api/api.go share: the
-- bearer token, the tenant that it speaks for, and the JSON responses.
use ghost_trace.Prelude.{
  ℕ, Bool, ◌||◌, ◌&&◌, ◌-◌, leb, String, List, [], ◌∷◌, Option, none, some, ◌==◌, ℕ_comparable,
  string_comparable, if◌then◌else◌,
}
use Prim.Native.Char.{code}
use ghost_trace.Prelude.Text.{Text, codes}
use ghost_trace.Tenant.{Tenant, Registry, by_secret_key}
use ghost_trace.Http.{Request, WriterCall, set_header, write_header, write}

-- A letter of the prefix matches itself and its capital, which is 32 below it; the space is alone.
abbrev pub fold_matches : ℕ → ℕ → Bool
fold_matches expected c = c == expected || (c == expected - 32 && leb b'a' expected)

-- What stands behind a prefix that `strings.EqualFold` finds.
unfoldable pub strip_fold : Text → String → Option String
strip_fold [] s = some s
strip_fold (p ∷ ps) String.[] = none
strip_fold (p ∷ ps) (String.◌∷◌ c s) = if fold_matches p (code c) then strip_fold ps s else none

-- `bearerToken`, on the Authorization header.
unfoldable pub bearer_of : String → String
bearer_of header = elim (strip_fold (codes "bearer ") header) [ none ↦ "" | some token ↦ token ]

abbrev pub bearer_token : Request → String
bearer_token r = bearer_of (r.header "Authorization")

-- `caller`
unfoldable pub caller : Registry → Request → Option Tenant
caller tenants r = by_secret_key tenants (bearer_token r)

-- The body of a response: the error's text, or what the endpoint answers.
pub data Payload (A : Type 0) : Type 0 where
  error_body : String → Payload A
  result_body : A → Payload A

abbrev pub write_json : {A : Type 0} → ℕ → Payload A → List (WriterCall (Payload A))
write_json status body =
    set_header "Content-Type" "application/json" ∷ write_header status ∷ write body ∷ []

abbrev pub write_error : {A : Type 0} → ℕ → String → List (WriterCall (Payload A))
write_error status msg = write_json status (error_body msg)

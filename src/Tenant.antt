-- ===== src/Tenant.antt =====
-- libs/tenant/tenant.go: the tenants and the keys that speak for them.
use ghost_trace.Prelude.{
  Bool, true, false, String, Option, none, some, List, [], ◌∷◌, ◌||◌, ◌==◌, string_comparable,
  if◌then◌else◌, ◌⊎◌, inl, inr, map,
}
use ghost_trace.Prelude.Dict.{Dict, lookup, insert, contains}
pub mod Uniqueness
pub mod Keys
pub mod Fingerprint
mod Tests

pub record Tenant : Type 0 where
  pub id : String
  pub site_key : String
  pub secret_key : String

-- A pointer into `all` is the tenant it points at, which nothing writes to.
pub record Registry : Type 0 where
  pub all : List Tenant
  pub by_site : Dict String Tenant

pub data Refusal : Type 0 where
  empty_registry : Refusal
  no_id : Refusal
  no_site_key : String → Refusal
  no_secret_key : String → Refusal
  declared_twice : String → Refusal
  site_key_taken : String → String → Refusal
  secret_key_shared : String → Refusal

-- `m[k]` on a map of strings, "" where the key is missing.
abbrev pub owner_of : Option String → String
owner_of none = ""
owner_of (some id) = id

-- The variables of `New`'s loop.
pub record Seen : Type 0 where
  pub ids : Dict String Bool
  pub sites : Dict String String
  pub secrets : Dict String Bool

abbrev pub flag : Option Bool → Bool
flag none = false
flag (some b) = b

-- The cases of `New`'s switch; `none` when none applies.
unfoldable pub refusal : Seen → Tenant → Option Refusal
refusal seen t =
    if t.id == ""
    then some no_id
    else if t.site_key == ""
    then some (no_site_key t.id)
    else if t.secret_key == ""
    then some (no_secret_key t.id)
    else if flag (lookup t.id seen.ids)
    then some (declared_twice t.id)
    else if owner_of (lookup t.site_key seen.sites) == ""
    then if flag (lookup t.secret_key seen.secrets) then some (secret_key_shared t.id) else none
    else some (site_key_taken t.id (owner_of (lookup t.site_key seen.sites)))

unfoldable pub note_tenant : Seen → Tenant → Seen
note_tenant seen t = record {
  ids = insert t.id true seen.ids;
  sites = insert t.site_key t.id seen.sites;
  secrets = insert t.secret_key true seen.secrets;
}

-- The loop returns at the first refusal.
abbrev pub first_refusal : Option Refusal → Option Refusal → Option Refusal
first_refusal none rest = rest
first_refusal (some e) rest = some e

unfoldable pub check_tenants : Seen → List Tenant → Option Refusal
check_tenants seen [] = none
check_tenants seen (t ∷ ts) = first_refusal (refusal seen t) (check_tenants (note_tenant seen t) ts)

-- The index by site key, filled in order.
unfoldable pub index_from : Dict String Tenant → List Tenant → Dict String Tenant
index_from m [] = m
index_from m (t ∷ ts) = index_from (insert t.site_key t m) ts

abbrev pub nothing_seen : Seen
nothing_seen = record { ids = []; sites = []; secrets = [] }

abbrev pub registry_of : Option Refusal → List Tenant → Refusal ⊎ Registry
registry_of (some e) ts = inl e
registry_of none ts = inr (record { all = ts; by_site = index_from [] ts })

unfoldable pub new : List Tenant → Refusal ⊎ Registry
new [] = inl empty_registry
new (t ∷ ts) = registry_of (check_tenants nothing_seen (t ∷ ts)) (t ∷ ts)

unfoldable pub by_site_key : Registry → String → Option Tenant
by_site_key r k = lookup k r.by_site

-- The loop of `BySecretKey`, which keeps the last match and does not stop at it.
unfoldable pub by_secret_from : String → Option Tenant → List Tenant → Option Tenant
by_secret_from k found [] = found
by_secret_from k found (t ∷ ts) = by_secret_from k (if k == t.secret_key then some t else found) ts

unfoldable pub by_secret_key : Registry → String → Option Tenant
by_secret_key r k = by_secret_from k none r.all

abbrev pub demo_site_key : String
demo_site_key = "pk_demo"

abbrev pub demo_secret_key : String
demo_secret_key = "sk_demo"

-- `DemoTenants` before its result is sorted.
unfoldable pub demo_ids : List Tenant → List String
demo_ids [] = []
demo_ids (t ∷ ts) =
    let rest = demo_ids ts in
    if t.secret_key == demo_secret_key || t.site_key == demo_site_key then t.id ∷ rest else rest

unfoldable pub ids : Registry → List String
ids r = map (λ t. t.id) r.all

pub data LoadError : Type 0 where
  unreadable : LoadError
  unparsed : LoadError
  refused : Refusal → LoadError

-- `Load`, on what os.ReadFile answers. The parameter is the JSON decoder with unknown fields
-- disallowed.
unfoldable pub load : {B : Type 0} → (B → Option (List Tenant)) → Option B → LoadError ⊎ Registry
unfolding new
load decode none = inl unreadable
load decode (some raw) = elim (decode raw) [
  | none ↦ inl unparsed
  | some tenants ↦ elim (new tenants) [ inl e ↦ inl (refused e) | inr r ↦ inr r ]
]

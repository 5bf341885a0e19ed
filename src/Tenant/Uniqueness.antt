-- ===== src/Tenant/Uniqueness.antt =====
-- What `New` accepts, and that a key then speaks for exactly one tenant.
use ghost_trace.Prelude.{
  ◌≡◌, ◌≢◌, ◌↔◌, inr, refl, List, [], ◌∷◌, All, All-map, arith, Option, none, some,
  string_comparable, true, false,
}
use ghost_trace.Prelude.Dict.{lookup, lookup-insert}
use ghost_trace.Tenant.{
  Tenant, Registry, Refusal, Seen, flag, owner_of, refusal, first_refusal, note_tenant,
  check_tenants, index_from, nothing_seen, registry_of, new,
}

-- The id and both keys are given.
abbrev pub IsNamed : Tenant → Type 0
IsNamed t = (t.id ≢ "") × (t.site_key ≢ "") × (t.secret_key ≢ "")

-- No id and no key in common.
abbrev pub IsApart : Tenant → Tenant → Type 0
IsApart t u = (t.id ≢ u.id) × (t.site_key ≢ u.site_key) × (t.secret_key ≢ u.secret_key)

abbrev pub IsUnique : List Tenant → Type 0
IsUnique [] = Unit
IsUnique (t ∷ ts) = IsNamed t × All (IsApart t) ts × IsUnique ts

-- The tenant is not refused after those that were seen.
record IsClear (seen : Seen) (t : Tenant) : Type 0 where
  named : IsNamed t
  new_id : flag (lookup t.id seen.ids) ≡ false
  new_site : owner_of (lookup t.site_key seen.sites) ≡ ""
  new_secret : flag (lookup t.secret_key seen.secrets) ≡ false

refusal-IsClear : (seen : Seen) (t : Tenant) → refusal seen t ≡ none → IsClear seen t
unfolding refusal
refusal-IsClear seen t h =
    let no_id = string_comparable.same_iff t.id "" in
    let no_site = string_comparable.same_iff t.site_key "" in
    let no_secret = string_comparable.same_iff t.secret_key "" in
    let owner = string_comparable.same_iff (owner_of (lookup t.site_key seen.sites)) "" in
    record {
      named = ground arith;
      new_id = ground arith;
      new_site = ground arith;
      new_secret = ground arith;
    }

refusal_of_clear : (seen : Seen) (t : Tenant) → IsClear seen t → refusal seen t ≡ none
unfolding refusal
refusal_of_clear seen t c = ground (
  arith,
  string_comparable.same_iff t.id "",
  string_comparable.same_iff t.site_key "",
  string_comparable.same_iff t.secret_key "",
  string_comparable.same_iff (owner_of (lookup t.site_key seen.sites)) "",
  c.named,
  c.new_id,
  c.new_site,
  c.new_secret,
)

note_tenant-IsClear :
    (seen : Seen) (t u : Tenant)
    → IsNamed t
    → IsClear (note_tenant seen t) u
    → IsClear seen u × IsApart t u
unfolding note_tenant
note_tenant-IsClear seen t u n c =
    let at_id = lookup-insert t.id u.id true seen.ids in
    let at_site = lookup-insert t.site_key u.site_key t.id seen.sites in
    let at_secret = lookup-insert t.secret_key u.secret_key true seen.secrets in
    let same_id = string_comparable.same_iff t.id u.id in
    let same_site = string_comparable.same_iff t.site_key u.site_key in
    let same_secret = string_comparable.same_iff t.secret_key u.secret_key in
    (
      record {
        named = c.named;
        new_id = ground (arith, c.new_id);
        new_site = ground (arith, c.new_site);
        new_secret = ground (arith, c.new_secret);
      },
      ground (arith, c.new_id, c.new_site, c.new_secret),
    )

note_tenant_clear_lem :
    (seen : Seen) (t u : Tenant) → IsClear seen u → IsApart t u → IsClear (note_tenant seen t) u
unfolding note_tenant
note_tenant_clear_lem seen t u c apart =
    let same_id = string_comparable.same_iff t.id u.id in
    let same_site = string_comparable.same_iff t.site_key u.site_key in
    let same_secret = string_comparable.same_iff t.secret_key u.secret_key in
    record {
      named = c.named;
      new_id = ground (arith, c.new_id, lookup-insert t.id u.id true seen.ids);
      new_site = ground (arith, c.new_site, lookup-insert t.site_key u.site_key t.id seen.sites);
      new_secret =
          ground (arith, c.new_secret, lookup-insert t.secret_key u.secret_key true seen.secrets);
    }

first_refusal_lem : (a b : Option Refusal) → first_refusal a b ≡ none → (a ≡ none) × (b ≡ none)
first_refusal_lem none b h = (refl, h)
first_refusal_lem (some e) b h = absurd (ground arith)

check_tenants-IsUnique :
    (seen : Seen) (ts : List Tenant)
    → check_tenants seen ts ≡ none
    → All (IsClear seen) ts × IsUnique ts
unfolding check_tenants
check_tenants-IsUnique seen [] h = (tt, tt)
check_tenants-IsUnique seen (t ∷ ts) h =
    let both = first_refusal_lem (refusal seen t) (check_tenants (note_tenant seen t) ts) h in
    let clear = refusal-IsClear seen t both.0 in
    let rest = check_tenants-IsUnique (note_tenant seen t) ts both.1 in
    (
      (
        clear,
        All-map (IsClear (note_tenant seen t)) (IsClear seen) ts
            (λ u c. (note_tenant-IsClear seen t u clear.named c).0) rest.0,
      ),
      (
        clear.named,
        All-map (IsClear (note_tenant seen t)) (IsApart t) ts
            (λ u c. (note_tenant-IsClear seen t u clear.named c).1) rest.0,
        rest.1,
      ),
    )

-- Both properties of every element.
All-both {ℓ κ τ} :
    {A : Type ℓ} (P : A → Type κ) (Q : A → Type τ) (xs : List A)
    → All P xs
    → All Q xs
    → All (λ x. P x × Q x) xs
All-both P Q [] p q = tt
All-both P Q (x ∷ xs) p q = ((p.0, q.0), All-both P Q xs p.1 q.1)

check_tenants_of_unique :
    (seen : Seen) (ts : List Tenant)
    → All (IsClear seen) ts
    → IsUnique ts
    → check_tenants seen ts ≡ none
unfolding check_tenants
check_tenants_of_unique seen [] c u = refl
check_tenants_of_unique seen (t ∷ ts) c u =
    let clear =
      All-map (λ v. IsClear seen v × IsApart t v) (IsClear (note_tenant seen t)) ts
        (λ v both. note_tenant_clear_lem seen t v both.0 both.1)
        (All-both (IsClear seen) (IsApart t) ts c.1 u.1) in
    rw (refusal_of_clear seen t c.0) (check_tenants_of_unique (note_tenant seen t) ts clear u.2)

named_of_unique : (ts : List Tenant) → IsUnique ts → All (IsClear nothing_seen) ts
unfolding lookup
named_of_unique [] u = tt
named_of_unique (t ∷ ts) u = (
  record { named = u.0; new_id = refl; new_site = refl; new_secret = refl },
  named_of_unique ts u.2,
)

registry_of_ok_lem :
    (e : Option Refusal) (ts : List Tenant) (r : Registry) → registry_of e ts ≡ inr r → e ≡ none
registry_of_ok_lem none ts r h = refl
registry_of_ok_lem (some e) ts r h = absurd (ground arith)

-- `New` accepts a list of tenants exactly when it is not empty, every tenant has an id, a site
-- key and a secret key, and no two tenants share an id, a site key or a secret key; and the
-- registry then holds that list in its order.
pub new-IsUnique :
    (ts : List Tenant)
    → ((r : Registry) × (new ts ≡ inr r) × (r.all ≡ ts)) ↔ ((ts ≢ []) × IsUnique ts)
unfolding new
new-IsUnique [] = (λ h. absurd (ground (arith, h.1)), λ h. absurd (h.0 refl))
new-IsUnique (t ∷ ts) = (
  λ h. (
    ground arith,
    (check_tenants-IsUnique nothing_seen (t ∷ ts) (registry_of_ok_lem _ (t ∷ ts) h.0 h.1)).1,
  ),
  λ h. (
    record { all = t ∷ ts; by_site = index_from [] (t ∷ ts) },
    rw (check_tenants_of_unique nothing_seen (t ∷ ts) (named_of_unique (t ∷ ts) h.1) h.1) refl,
    refl,
  ),
)

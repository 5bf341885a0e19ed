-- ===== src/Tenant/Keys.antt =====
-- The two lookups of a registry: a secret key and a site key each speak for one tenant.
use ghost_trace.Prelude.{
  ◌≡◌, ◌≢◌, ◌⊎◌, ◌↔◌, inl, inr, refl, sym, ◌∙◌, ap, List, [], ◌∷◌, All, All-map, arith,
  if◌then◌else◌, Option, none, some, String, string_comparable, true, Bool-cases, ◌==◌,
}
use ghost_trace.Prelude.Dict.{Dict, lookup, insert, lookup-insert, lookup-insert_self}
use ghost_trace.Tenant.{
  Tenant, Registry, Refusal, check_tenants, nothing_seen, index_from, registry_of, new, by_site_key,
  by_secret_from, by_secret_key,
}
use ghost_trace.Tenant.Uniqueness.{IsNamed, IsUnique, IsApart, new-IsUnique}

-- The tenant is in the list.
abbrev pub Has : Tenant → List Tenant → Type 0
Has t [] = ⊥
Has t (u ∷ us) = (t ≡ u) ⊎ Has t us

by_secret_from-Has :
    (k : String) (found : Option Tenant) (ts : List Tenant) (t : Tenant)
    → by_secret_from k found ts ≡ some t
    → (found ≡ some t) ⊎ (Has t ts × (t.secret_key ≡ k))
unfolding by_secret_from
by_secret_from-Has k found [] t h = inl h
by_secret_from-Has k found (u ∷ us) t h =
    elim (by_secret_from-Has k (if k == u.secret_key then some u else found) us t h) [
      | inl here ↦ elim (Bool-cases (k == u.secret_key)) [
        | inl matched ↦
            let same : t ≡ u = ground arith in
            let key : k ≡ u.secret_key = (string_comparable.same_iff k u.secret_key).0 matched in
            inr (inl same, rw same (sym key))
        | inr other ↦ inl (ground arith)
      ]
      | inr later ↦ inr (inr later.0, later.1)
    ]

-- No other tenant of the list overwrites a match.
by_secret_from-kept :
    (k : String) (found : Option Tenant) (ts : List Tenant)
    → All (λ u. k ≢ u.secret_key) ts
    → by_secret_from k found ts ≡ found
unfolding by_secret_from
by_secret_from-kept k found [] h = refl
by_secret_from-kept k found (u ∷ us) h =
    ground (arith, string_comparable.same_iff k u.secret_key, by_secret_from-kept k found us h.1)

by_secret_from_unique :
    (k : String) (found : Option Tenant) (ts : List Tenant) (t : Tenant)
    → IsUnique ts
    → Has t ts
    → k ≡ t.secret_key
    → by_secret_from k found ts ≡ some t
unfolding by_secret_from
by_secret_from_unique k found [] t u h e = absurd h
by_secret_from_unique k found (v ∷ vs) t u (inl same) e =
    let key : k ≡ v.secret_key = e ∙ ap (λ w. w.secret_key) same in
    let matched : (k == v.secret_key) ≡ true = (string_comparable.same_iff k v.secret_key).1 key in
    rw matched (
      by_secret_from-kept k (some v) vs
        (All-map (IsApart v) (λ w. k ≢ w.secret_key) vs (λ w apart. rw key apart.2) u.1)
      ∙ ap some (sym same))
by_secret_from_unique k found (v ∷ vs) t u (inr later) e =
    by_secret_from_unique k (if k == v.secret_key then some v else found) vs t u.2 later e

index_from-Has :
    (k : String) (m : Dict String Tenant) (ts : List Tenant) (t : Tenant)
    → lookup k (index_from m ts) ≡ some t
    → (lookup k m ≡ some t) ⊎ (Has t ts × (t.site_key ≡ k))
unfolding index_from
index_from-Has k m [] t h = inl h
index_from-Has k m (u ∷ us) t h = elim (index_from-Has k (insert u.site_key u m) us t h) [
  | inl here ↦ elim (Bool-cases (u.site_key == k)) [
    | inl matched ↦
        let same : t ≡ u = ground (arith, lookup-insert u.site_key k u m) in
        let key : u.site_key ≡ k = (string_comparable.same_iff u.site_key k).0 matched in
        inr (inl same, rw same key)
    | inr other ↦ inl (ground (arith, lookup-insert u.site_key k u m))
  ]
  | inr later ↦ inr (inr later.0, later.1)
]

index_from-kept :
    (k : String) (m : Dict String Tenant) (ts : List Tenant)
    → All (λ u. u.site_key ≢ k) ts
    → lookup k (index_from m ts) ≡ lookup k m
unfolding index_from
index_from-kept k m [] h = refl
index_from-kept k m (u ∷ us) h = ground (
  arith,
  string_comparable.same_iff u.site_key k,
  lookup-insert u.site_key k u m,
  index_from-kept k (insert u.site_key u m) us h.1,
)

index_from_unique :
    (m : Dict String Tenant) (ts : List Tenant) (t : Tenant)
    → IsUnique ts
    → Has t ts
    → lookup t.site_key (index_from m ts) ≡ some t
unfolding index_from
index_from_unique m [] t u h = absurd h
index_from_unique m (v ∷ vs) t u (inl same) = rw same (
    index_from-kept v.site_key (insert v.site_key v m) vs
      (All-map (IsApart v) (λ w. w.site_key ≢ v.site_key) vs (λ w apart e. apart.1 (sym e)) u.1)
    ∙ lookup-insert_self v.site_key v m)
index_from_unique m (v ∷ vs) t u (inr later) =
    index_from_unique (insert v.site_key v m) vs t u.2 later

registry_of_lem :
    (e : Option Refusal) (ts : List Tenant) (r : Registry)
    → registry_of e ts ≡ inr r
    → (r.all ≡ ts) × (r.by_site ≡ index_from [] ts)
registry_of_lem none ts r h = (ground arith, ground arith)
registry_of_lem (some e) ts r h = absurd (ground arith)

new_lem :
    (ts : List Tenant) (r : Registry)
    → new ts ≡ inr r
    → (r.all ≡ ts) × (r.by_site ≡ index_from [] ts)
unfolding new
new_lem [] r h = absurd (ground arith)
new_lem (t ∷ ts) r h = registry_of_lem (check_tenants nothing_seen (t ∷ ts)) (t ∷ ts) r h

by_secret_key-Has :
    (ts : List Tenant) (k : String) (t : Tenant)
    → by_secret_from k none ts ≡ some t
    → Has t ts × (t.secret_key ≡ k)
by_secret_key-Has ts k t h = elim (by_secret_from-Has k none ts t h) [
  | inl none_before ↦ absurd (ground arith)
  | inr found ↦ found
]

by_site_key-Has :
    (ts : List Tenant) (k : String) (t : Tenant)
    → lookup k (index_from [] ts) ≡ some t
    → Has t ts × (t.site_key ≡ k)
unfolding lookup
by_site_key-Has ts k t h = elim (index_from-Has k [] ts t h) [
  | inl none_before ↦ absurd (ground arith)
  | inr found ↦ found
]

-- Under a registry that `New` accepted: a secret key gives a tenant exactly when that tenant is
-- in the list and the key is its secret key, and a site key gives a tenant exactly when it is in
-- the list and the key is its site key. So no key speaks for two tenants, and every tenant is
-- reached by both of its keys.
pub new-keys :
    (ts : List Tenant) (r : Registry) (k : String) (t : Tenant)
    → new ts ≡ inr r
    → ((by_secret_key r k ≡ some t) ↔ (Has t ts × (t.secret_key ≡ k)))
      × ((by_site_key r k ≡ some t) ↔ (Has t ts × (t.site_key ≡ k)))
unfolding by_secret_key by_site_key
new-keys ts r k t h =
    let built = new_lem ts r h in
    let unique : IsUnique ts = ((new-IsUnique ts).0 (r, h, built.0)).1 in
    rw (built.0, built.1)
      (
        (
          by_secret_key-Has ts k t,
          λ found. by_secret_from_unique k none ts t unique found.0 (sym found.1),
        ),
        (
          by_site_key-Has ts k t,
          λ found. rw (← found.1) (index_from_unique [] ts t unique found.0),
        ),
      )

unique-IsNamed : (ts : List Tenant) (t : Tenant) → IsUnique ts → Has t ts → IsNamed t
unique-IsNamed [] t u h = absurd h
unique-IsNamed (v ∷ vs) t u (inl same) = rw same u.0
unique-IsNamed (v ∷ vs) t u (inr later) = unique-IsNamed vs t u.2 later

-- Every tenant of a registry has an id and both keys.
pub new-IsNamed :
    (ts : List Tenant) (r : Registry) (t : Tenant) → new ts ≡ inr r → Has t ts → IsNamed t
new-IsNamed ts r t h = unique-IsNamed ts t ((new-IsUnique ts).0 (r, h, (new_lem ts r h).0)).1

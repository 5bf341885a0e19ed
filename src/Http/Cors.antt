-- ===== src/Http/Cors.antt =====
-- libs/middleware/cors.go: which origins a response names, and what a preflight reaches.
-- `strings.TrimSpace` and `strings.Join` of the methods are arguments.
use ghost_trace.Prelude.{
  ◌≡◌, ◌≢◌, ◌⊎◌, inl, inr, refl, ◌∙◌, Bool, true, false, ◌&&◌, not, String, List, [], ◌∷◌, ◌++◌,
  Option, none, some, arith, All, All-append, All-map, Bool-cases, ◌==◌, string_comparable,
  if◌then◌else◌,
}
use ghost_trace.Prelude.Dict.{Dict, lookup, insert, lookup-insert}
use ghost_trace.Http.{
  Request, WriterCall, set_header, add_header, write_header, Handler, Middleware, sent_status,
}

abbrev pub allow_origin : String
allow_origin = "Access-Control-Allow-Origin"

-- The loop that fills the map of allowed origins; `trimmed` is the list after TrimSpace.
unfoldable pub allow_all : List String → Dict String Bool → Dict String Bool
allow_all [] allowed = allowed
allow_all (o ∷ os) allowed = allow_all os (if o == "" then allowed else insert o true allowed)

abbrev pub is_true : Option Bool → Bool
is_true none = false
is_true (some b) = b

-- `origin != "" && allowed[origin]`
unfoldable pub is_allowed : List String → String → Bool
is_allowed trimmed origin = not (origin == "") && is_true (lookup origin (allow_all trimmed []))

unfoldable pub is_preflight : Request → Bool
is_preflight r = r.method == "OPTIONS" && not (r.header "Access-Control-Request-Method" == "")

abbrev pub allow_calls : {D : Type 0} → Bool → String → String → List (WriterCall D)
allow_calls true methods origin =
    set_header allow_origin origin
    ∷ set_header "Access-Control-Allow-Methods" methods
    ∷ set_header "Access-Control-Allow-Headers" "Content-Type, Authorization"
    ∷ set_header "Access-Control-Max-Age" "600"
    ∷ []
allow_calls false methods origin = []

module _ {D S : Type 0} where
  unfoldable pub cors : List String → String → Middleware D S
  cors trimmed methods next r s =
      let first =
        add_header "Vary" "Origin"
        ∷ allow_calls (is_allowed trimmed (r.header "Origin")) methods (r.header "Origin") in
      if is_preflight r
      then record {
        calls = first ++ (write_header 204 ∷ []);
        state = s;
        panicked = false;
        observed = [];
      }
      else let served = next r s in record served { calls = first ++ served.calls }

not_empty : (p : String) → (p == "") ≡ false → p ≢ ""
not_empty p named e = ground (arith, string_comparable.same_iff p "")

-- Whether a text is an element of the list.
abbrev pub IsListed : String → List String → Type 0
IsListed o [] = ⊥
IsListed o (p ∷ ps) = (p ≡ o) ⊎ IsListed o ps

allow_all-IsListed :
    (trimmed : List String) (allowed : Dict String Bool) (o : String)
    → is_true (lookup o (allow_all trimmed allowed)) ≡ true
    → (is_true (lookup o allowed) ≡ true) ⊎ (IsListed o trimmed × (o ≢ ""))
unfolding allow_all
allow_all-IsListed [] allowed o e = inl e
allow_all-IsListed (p ∷ ps) allowed o e =
    elim (allow_all-IsListed ps (if p == "" then allowed else insert p true allowed) o e) [
      | inr (listed, named) ↦ inr (inr listed, named)
      | inl held ↦ elim (Bool-cases (p == "")) [
        | inl empty ↦ inl (rw empty at held)
        | inr named ↦ elim (Bool-cases (p == o)) [
          | inl same ↦
              let is_o : p ≡ o = (string_comparable.same_iff p o).0 same in
              inr (inl is_o, λ none_given. not_empty p named (is_o ∙ none_given))
          | inr other ↦ inl (rw (named, lookup-insert p o true allowed, other) at held)
        ]
      ]
    ]

is_allowed-IsListed :
    (trimmed : List String) (o : String)
    → is_allowed trimmed o ≡ true
    → IsListed o trimmed × (o ≢ "")
unfolding is_allowed lookup
is_allowed-IsListed trimmed o e = elim (allow_all-IsListed trimmed [] o (ground arith)) [
  | inl nothing ↦ absurd (ground arith)
  | inr listed ↦ listed
]

-- A call that names an origin names the request's, which the configuration lists.
abbrev pub NamesListed : {D : Type 0} → List String → Request → WriterCall D → Type 0
NamesListed trimmed r c =
    (o : String)
    → c ≡ set_header allow_origin o
    → (o ≡ r.header "Origin") × IsListed o trimmed × (o ≢ "")

header_fields :
    {D : Type 0} (k l v w : String)
    → ◌≡◌ {A = WriterCall D} (set_header k v) (set_header l w)
    → (k ≡ l) × (v ≡ w)
header_fields k l v w e = ground arith

other_header :
    {D : Type 0} (trimmed : List String) (r : Request) (k v : String)
    → (k == allow_origin) ≡ false
    → NamesListed {D = D} trimmed r (set_header k v)
other_header trimmed r k v apart o e =
    let same : k ≡ allow_origin = (header_fields k allow_origin v o e).0 in
    absurd (ground (arith, string_comparable.same_iff k allow_origin))

module _ (D : Type 0) (trimmed : List String) (methods : String) (r : Request) where
  abbrev Named : WriterCall D → Type 0
  Named = NamesListed {D = D} trimmed r

  allow_calls-NamesListed :
      (allowed : Bool)
      → is_allowed trimmed (r.header "Origin") ≡ allowed
      → All Named (allow_calls allowed methods (r.header "Origin"))
  allow_calls-NamesListed false e = tt
  allow_calls-NamesListed true e = (
    λ o same.
        let names : r.header "Origin" ≡ o =
          (header_fields allow_origin allow_origin (r.header "Origin") o same).1 in
        let listed = is_allowed-IsListed trimmed (r.header "Origin") e in
        rw (← names) (refl, listed.0, listed.1),
    (
      other_header trimmed r "Access-Control-Allow-Methods" methods refl,
      (
        other_header trimmed r "Access-Control-Allow-Headers" "Content-Type, Authorization" refl,
        (other_header trimmed r "Access-Control-Max-Age" "600" refl, tt),
      ),
    ),
  )

  abbrev first_calls : List (WriterCall D)
  first_calls =
      add_header "Vary" "Origin"
      ∷ allow_calls (is_allowed trimmed (r.header "Origin")) methods (r.header "Origin")

  first_calls-NamesListed : All Named first_calls
  first_calls-NamesListed = (
    λ o e. absurd (ground arith),
    allow_calls-NamesListed (is_allowed trimmed (r.header "Origin")) refl,
  )

  preflight-sent_status :
      (allowed : Bool)
      → sent_status {D = D}
          (allow_calls allowed methods (r.header "Origin") ++ (write_header 204 ∷ []))
        ≡ 204
  unfolding sent_status
  preflight-sent_status true = refl
  preflight-sent_status false = refl

  pub cors-NamesListed :
      {S : Type 0} (next : Handler D S) (s : S)
      → All (λ c. (o : String) → c ≢ set_header allow_origin o) (next r s).calls
      → All Named (cors trimmed methods next r s).calls
        × (is_preflight r ≡ true
            → ((cors trimmed methods next r s).state ≡ s)
              × (sent_status (cors trimmed methods next r s).calls ≡ 204))
  unfolding cors sent_status
  cors-NamesListed next s silent = elim (Bool-cases (is_preflight r)) [
    | inl asks ↦ rw asks (
      All-append Named first_calls (write_header 204 ∷ []) first_calls-NamesListed
          (λ o e. absurd (ground arith), tt),
      λ _. (refl, preflight-sent_status (is_allowed trimmed (r.header "Origin"))),
    )
    | inr plain ↦ rw plain (
      All-append Named first_calls (next r s).calls first_calls-NamesListed
          (All-map _ Named (next r s).calls (λ c quiet o e. absurd (quiet o e)) silent),
      λ asks. absurd (ground arith),
    )
  ]

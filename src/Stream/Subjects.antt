-- ===== src/Stream/Subjects.antt =====
-- The tokens of the stream's subjects: which records travel on which.
use ghost_trace.Prelude.{
  ℕ, ◌≡◌, ◌≢◌, refl, ap, sym, ◌∙◌, List, [], ◌∷◌, ◌++◌, map, some, arith, All, true, ◌==◌,
  ℕ_comparable, bytes_comparable, Bool-cases, inl, inr,
}
use ghost_trace.Prelude.Text.{Text, codes, Lacks, split_on, split_on-Lacks, split_on-append}
use ghost_trace.Stream.{
  Kind, kind_text, kind_by_message_type, kind_in, kind_for, replace_byte, sanitize_token, subject,
  subject_prefix,
}

-- No separator, no wildcard and no space.
abbrev pub IsPlain : ℕ → Type 0
IsPlain c = (c ≢ b'.') × (c ≢ b'*') × (c ≢ b'>') × (c ≢ b' ')

replace_byte-IsPlain : (c : ℕ) → IsPlain (replace_byte c)
replace_byte-IsPlain c = ground arith

map-replace_byte-IsPlain : (s : Text) → All IsPlain (map replace_byte s)
map-replace_byte-IsPlain [] = tt
map-replace_byte-IsPlain (c ∷ cs) = (replace_byte-IsPlain c, map-replace_byte-IsPlain cs)

sanitize_token-IsPlain : (s : Text) → All IsPlain (sanitize_token s)
unfolding sanitize_token
sanitize_token-IsPlain [] = ground arith
sanitize_token-IsPlain (c ∷ cs) = map-replace_byte-IsPlain (c ∷ cs)

IsPlain-Lacks : (s : Text) → All IsPlain s → Lacks b'.' s
IsPlain-Lacks [] h = tt
IsPlain-Lacks (c ∷ cs) h = (h.0.0, IsPlain-Lacks cs h.1)

pub sanitize_token-Lacks : (s : Text) → Lacks b'.' (sanitize_token s)
sanitize_token-Lacks s = IsPlain-Lacks (sanitize_token s) (sanitize_token-IsPlain s)

split_on-sanitize_token : (s : Text) → split_on b'.' (sanitize_token s) ≡ sanitize_token s ∷ []
split_on-sanitize_token s = split_on-Lacks b'.' (sanitize_token s) (sanitize_token-Lacks s)

-- A name that needs no replacement.
abbrev pub IsClean : Text → Type 0
IsClean s = (s ≢ []) × All IsPlain s

replace_byte-plain : (c : ℕ) → IsPlain c → replace_byte c ≡ c
replace_byte-plain c h = ground arith

map-replace_byte : (s : Text) → All IsPlain s → map replace_byte s ≡ s
map-replace_byte [] h = refl
map-replace_byte (c ∷ cs) h = cc (replace_byte-plain c h.0, map-replace_byte cs h.1)

pub sanitize_token-IsClean : (s : Text) → IsClean s → sanitize_token s ≡ s
unfolding sanitize_token
sanitize_token-IsClean [] h = absurd (h.0 refl)
sanitize_token-IsClean (c ∷ cs) h = map-replace_byte (c ∷ cs) h.1

-- No text of a kind has a separator.
kind_text-Lacks : (k : Kind) → Lacks b'.' (kind_text k)
kind_text-Lacks Kind.session = ground arith
kind_text-Lacks Kind.telemetry = ground arith
kind_text-Lacks Kind.evaluation = ground arith
kind_text-Lacks Kind.outcome = ground arith

split_on_prefix :
    (rest : Text)
    → split_on b'.' (subject_prefix ++ (b'.' ∷ rest))
      ≡ codes "gt" ∷ codes "events" ∷ codes "v1" ∷ split_on b'.' rest
unfolding split_on
split_on_prefix rest = refl

pub subject-tokens :
    (kind : Kind) (tenant : Text)
    → split_on b'.' (subject kind tenant)
      ≡ codes "gt" ∷ codes "events" ∷ codes "v1" ∷ kind_text kind ∷ sanitize_token tenant ∷ []
unfolding subject
subject-tokens kind tenant = cc (
  split_on_prefix (kind_text kind ++ (b'.' ∷ sanitize_token tenant)),
  split_on-append b'.' (kind_text kind) (sanitize_token tenant) (kind_text-Lacks kind),
  split_on-sanitize_token tenant,
)

fourth_and_fifth :
    {a b c d e d' e' : Text}
    → ◌≡◌ {A = List Text} (a ∷ b ∷ c ∷ d ∷ e ∷ []) (a ∷ b ∷ c ∷ d' ∷ e' ∷ [])
    → (d ≡ d') × (e ≡ e')
fourth_and_fifth h = ground arith

kind_text-injective : (k l : Kind) → kind_text k ≡ kind_text l → k ≡ l
kind_text-injective k l h = ground arith

pub subject-injective :
    (k l : Kind) (t u : Text)
    → subject k t ≡ subject l u
    → (k ≡ l) × (sanitize_token t ≡ sanitize_token u)
subject-injective k l t u h = (kind_text-injective k l tokens.0, tokens.1)
  where
    same : split_on b'.' (subject k t) ≡ split_on b'.' (subject l u)
    same = ap (split_on b'.') h

    tokens : (kind_text k ≡ kind_text l) × (sanitize_token t ≡ sanitize_token u)
    tokens = fourth_and_fifth (sym (subject-tokens k t) ∙ same ∙ subject-tokens l u)

kind_in_head :
    (t : Text) (l : Kind) (rest : List (Text × Kind)) (s : Text) (k : Kind)
    → (s == t) ≡ true
    → kind_in ((t, l) ∷ rest) s ≡ some k
    → l ≡ k
unfolding kind_in
kind_in_head t l rest s k same h = ground arith

-- The kind that a table gives a name is the kind of one of its entries.
kind_in_lem :
    (table : List (Text × Kind)) (name_of : Kind → Text) (s : Text) (k : Kind)
    → All (λ entry. name_of entry.1 ≡ entry.0) table
    → kind_in table s ≡ some k
    → s ≡ name_of k
unfolding kind_in
kind_in_lem [] name_of s k named h = absurd (ground arith)
kind_in_lem ((t, l) ∷ rest) name_of s k named h = elim (Bool-cases (s == t)) [
  | inl same ↦
      (bytes_comparable.same_iff s t).0 same
      ∙ sym named.0
      ∙ ap name_of (kind_in_head t l rest s k same h)
  | inr other ↦ kind_in_lem rest name_of s k named.1 (ground arith)
]

pub message_type_of : Kind → Text
message_type_of Kind.session = codes "ghosttrace.events.v1.SessionStart"
message_type_of Kind.telemetry = codes "ghosttrace.events.v1.TelemetryBatch"
message_type_of Kind.evaluation = codes "ghosttrace.events.v1.Evaluation"
message_type_of Kind.outcome = codes "ghosttrace.events.v1.Outcome"

pub kind_for-message_type_of : (s : Text) (k : Kind) → kind_for s ≡ some k → s ≡ message_type_of k
unfolding message_type_of
kind_for-message_type_of s k =
    kind_in_lem kind_by_message_type message_type_of s k (refl, (refl, (refl, (refl, tt))))

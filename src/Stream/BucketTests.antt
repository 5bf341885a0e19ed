-- ===== src/Stream/BucketTests.antt =====
-- A bucket that is a list of entries, with one snapshot.
use ghost_trace.Prelude.{
  ℕ, ◌≡◌, ◌≢◌, ◌⊎◌, inl, inr, refl, ap, sym, arith, Bool, true, false, ◌&&◌, [], ◌∷◌, Option, none,
  some, ◌==◌, ℕ_comparable, bytes_comparable, bytes_equal_iff, string_comparable, Bool-cases,
  if◌then◌else◌,
}
use ghost_trace.Prelude.Text.{Text, codes}
use ghost_trace.Prelude.Dict.{Dict, lookup, insert, lookup-insert, lookup-insert_self}
use ghost_trace.Canonical.{Bytes}
use ghost_trace.Snapshot.{FeatureState, SessionSnapshot, snapshot, store_error}
use ghost_trace.Stream.{sanitize_token, session_key}
use ghost_trace.Stream.Keys.{
  KvAnswer, found, key_not_found, kv_error, KeyValue, KeyValueLaws, put, get,
}
use ghost_trace.Stream.Isolation.{put-get, put-isolated}

abbrev Bucket : Type 0
Bucket = Dict Text Bytes

abbrev answer_of : Option Bytes → KvAnswer
answer_of none = key_not_found
answer_of (some v) = found v

abbrev list_bucket : KeyValue Bucket
list_bucket = record {
  kv_put = λ key v b. (insert key v b, true);
  kv_get = λ key b. answer_of (lookup key b);
}

answer_of_lem :
    (o : Option Bytes) → answer_of o ≡ elim o [ none ↦ key_not_found | some v ↦ found v ]
answer_of_lem none = refl
answer_of_lem (some v) = refl

insert_other :
    (key other : Text) (v : Bytes) (b : Bucket)
    → other ≢ key
    → lookup other (insert key v b) ≡ lookup other b
insert_other key other v b differ = elim (Bool-cases (key == other)) [
  | inl same ↦ absurd (differ (sym ((bytes_equal_iff key other).0 same)))
  | inr apart ↦ rw (lookup-insert key other v b, apart) refl
]

list_laws : KeyValueLaws list_bucket
list_laws = record {
  contents = λ b key. lookup key b;
  get_lem = λ key b. inr (answer_of_lem (lookup key b));
  put_same = λ key v b done. lookup-insert_self key v b;
  put_other = λ key other v b differ. insert_other key other v b differ;
}

abbrev sample : SessionSnapshot ℕ
sample = record {
  tenant_id = "a.b";
  session_id = "s_1";
  last_event_ms = 4;
  written_at = 9;
  features = none;
}

abbrev no_features : Option (FeatureState ℕ) → Bool
no_features none = true
no_features (some f) = false

abbrev is_same : SessionSnapshot ℕ → SessionSnapshot ℕ → Bool
is_same q r =
    q.tenant_id == r.tenant_id
    && q.session_id == r.session_id
    && q.last_event_ms == r.last_event_ms
    && q.written_at == r.written_at
    && no_features q.features
    && no_features r.features

features_lem : (f g : Option (FeatureState ℕ)) → no_features f ≡ true → no_features g ≡ true → f ≡ g
features_lem none none hf hg = refl
features_lem none (some g) hf hg = absurd (ground arith)
features_lem (some f) g hf hg = absurd (ground arith)

is_same_lem : (q r : SessionSnapshot ℕ) → is_same q r ≡ true → q ≡ r
is_same_lem q r e = ground (
  arith,
  string_comparable.same_iff q.tenant_id r.tenant_id,
  string_comparable.same_iff q.session_id r.session_id,
  features_lem q.features r.features,
)

-- An encoding of one snapshot.
abbrev encode : SessionSnapshot ℕ → Option Bytes
encode snap = if is_same sample snap then some [] else none

abbrev decode : Bytes → Option (SessionSnapshot ℕ)
decode b = some sample

encoded_lem :
    (q r : SessionSnapshot ℕ) (b : Bytes) → (if is_same q r then some [] else none) ≡ some b → q ≡ r
encoded_lem q r b e = elim (Bool-cases (is_same q r)) [
  | inl same ↦ is_same_lem q r same
  | inr other ↦ absurd (none_lem (is_same q r) b other e)
]
  where
    none_lem : (t : Bool) (b : Bytes) → t ≡ false → (if t then some [] else none) ≢ some b
    none_lem true b same h = ground arith
    none_lem false b same h = ground arith

encode-decode : (snap : SessionSnapshot ℕ) (b : Bytes) → encode snap ≡ some b → decode b ≡ some snap
encode-decode snap b e = ap some (encoded_lem sample snap b e)

abbrev tok : Text
tok = codes "st_1"

abbrev kept : Bucket
kept = (codes "a_b.st_1", []) ∷ []

-- Another tenant, whose id differs in a byte that the key replaces.
put-get_example :
    (list_bucket.kv_get (session_key (codes "a_b") tok) kept ≡ kv_error
      → get list_bucket encode decode (codes "a_b") tok kept ≡ store_error)
    × (list_bucket.kv_get (session_key (codes "a_b") tok) kept ≢ kv_error
        → get list_bucket encode decode (codes "a_b") tok kept ≡ snapshot sample)
unfolding put session_key sanitize_token insert
put-get_example =
    put-get list_bucket list_laws encode decode encode-decode (codes "a_b") tok sample [] kept refl
      refl

not_same_tenant : sanitize_token (codes "globex") ≢ sanitize_token (codes sample.tenant_id)
unfolding sanitize_token
not_same_tenant e = ground arith

put-isolated_example :
    (list_bucket.kv_get (session_key (codes "globex") tok) [] ≡ kv_error)
    ⊎ (list_bucket.kv_get
          (session_key (codes "globex") tok)
          (put list_bucket encode decode tok sample []).0
        ≡ kv_error)
    ⊎ (get list_bucket encode decode
          (codes "globex")
          tok
          (put list_bucket encode decode tok sample []).0
        ≡ get list_bucket encode decode (codes "globex") tok [])
put-isolated_example =
    put-isolated list_bucket list_laws encode decode (codes "globex") tok tok sample []
      (inr not_same_tenant)

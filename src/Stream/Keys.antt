-- ===== src/Stream/Keys.antt =====
-- libs/eventstream/sessionkv.go: the bucket of snapshots, and the limits that a reader insists on
-- (`OpenSessions`, and `OpenStream` of jetstream.go). The bucket is NATS's, known by an interface.
use ghost_trace.Prelude.{
  ℕ, ◌*◌, ◌^◌, ◌≡◌, ◌≢◌, ◌⊎◌, inl, inr, Bool, true, ◌&&◌, Option, none, some, ◌==◌, ℕ_comparable,
  bytes_comparable, if◌then◌else◌,
}
use ghost_trace.Prelude.Text.{Text, codes}
use ghost_trace.Canonical.{Bytes}
use ghost_trace.Snapshot.{SessionSnapshot, Got, snapshot, no_snapshot, store_error}
use ghost_trace.Stream.{session_key}

-- What `Get` of a bucket comes to: an entry, ErrKeyNotFound, or another error.
pub data KvAnswer : Type 0 where
  found : Bytes → KvAnswer
  key_not_found : KvAnswer
  kv_error : KvAnswer

-- A bucket: `Put` says whether it succeeded.
pub record KeyValue (B : Type 0) : Type 0 where
  pub kv_put : Text → Bytes → B → B × Bool
  pub kv_get : Text → B → KvAnswer

-- What the code relies on: a bucket has contents, `Get` reports them or fails, a `Put` that
-- succeeds sets its key, and no `Put` touches another key.
pub record KeyValueLaws {B : Type 0} (kv : KeyValue B) : Type 0 where
  pub contents : B → Text → Option Bytes
  pub get_lem :
      (key : Text) (b : B)
      → (kv.kv_get key b ≡ kv_error)
        ⊎ (kv.kv_get key b ≡ elim (contents b key) [ none ↦ key_not_found | some v ↦ found v ])
  pub put_same :
      (key : Text) (v : Bytes) (b : B)
      → (kv.kv_put key v b).1 ≡ true
      → contents (kv.kv_put key v b).0 key ≡ some v
  pub put_other :
      (key other : Text) (v : Bytes) (b : B)
      → other ≢ key
      → contents (kv.kv_put key v b).0 other ≡ contents b other

pub data PutError : Type 0 where
  marshal_failed : PutError
  put_failed : PutError

module _ {B G : Type 0} (kv : KeyValue B) (marshal : SessionSnapshot G → Option Bytes)
    (unmarshal : Bytes → Option (SessionSnapshot G)) where
  -- `Put`
  unfoldable pub put : Text → SessionSnapshot G → B → B × (PutError ⊎ Unit {0})
  put token snap b = elim (marshal snap) [
    | none ↦ (b, inl marshal_failed)
    | some body ↦
        let done = kv.kv_put (session_key (codes snap.tenant_id) token) body b in
        (done.0, if done.1 then inr tt else inl put_failed)
  ]

  -- `Get`
  unfoldable pub get : Text → Text → B → Got G
  get tenant token b = elim (kv.kv_get (session_key tenant token) b) [
    | key_not_found ↦ no_snapshot
    | kv_error ↦ store_error
    | found body ↦ elim (unmarshal body) [ none ↦ store_error | some snap ↦ snapshot snap ]
  ]

pub data OpenError : Type 0 where
  not_bound : OpenError
  no_status : OpenError
  limits_mismatch : OpenError

-- `OpenSessions`: whether the bucket is there, and the TTL that its status tells.
unfoldable pub open_sessions : Bool → Option ℕ → ℕ → OpenError ⊎ Unit {0}
open_sessions bound status expect =
    if bound
    then elim status [
      | none ↦ inl no_status
      | some ttl ↦ if ttl == expect then inr tt else inl limits_mismatch
    ]
    else inl not_bound

-- In nanoseconds and in bytes.
abbrev pub stream_max_age : ℕ
stream_max_age = 7 * 24 * 3600 * 10 ^ 9

abbrev pub stream_max_bytes : ℕ
stream_max_bytes = 4 * 2 ^ 30

pub record StreamLimits : Type 0 where
  pub max_age : ℕ
  pub max_bytes : ℕ

abbrev pub stream_config : StreamLimits
stream_config = record { max_age = stream_max_age; max_bytes = stream_max_bytes }

-- `OpenStream`: whether the stream is there, and the limits that its info tells.
unfoldable pub open_stream : Bool → Option StreamLimits → OpenError ⊎ Unit {0}
open_stream bound info =
    if bound
    then elim info [
      | none ↦ inl no_status
      | some config ↦
          if config.max_age == stream_config.max_age && config.max_bytes == stream_config.max_bytes
          then inr tt
          else inl limits_mismatch
    ]
    else inl not_bound

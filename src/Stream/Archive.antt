-- ===== src/Stream/Archive.antt =====
-- streamarchive.go and `Publish` of jetstream.go: from a message to what the broker is sent.
use ghost_trace.Prelude.{
  Bool, List, [], ◌∷◌, Option, none, some, ◌==◌, bytes_comparable, if◌then◌else◌, ◌⊎◌, inl, inr,
}
use ghost_trace.Prelude.Int.{ℤ}
use ghost_trace.Prelude.Text.{Text}
use ghost_trace.Canonical.{Bytes, hash_hex}
use ghost_trace.Consumer.{ArchiveRecord}
use ghost_trace.Stream.{kind_for, subject}

-- What `Record` reads of a protobuf message by reflection: its full name, and its field `tenant_id`
-- where it declares one that is a string.
pub record Message (M : Type 0) : Type 0 where
  pub body : M
  pub full_name : Text
  pub tenant_id : Option Text

pub data StreamError : Type 0 where
  unknown_message_type : StreamError
  no_tenant : StreamError
  canonicalize_failed : StreamError
  marshal_failed : StreamError
  publish_failed : StreamError

unfoldable pub tenant_of : {M : Type 0} → Message M → StreamError ⊎ Text
tenant_of msg = elim msg.tenant_id [
  | none ↦ inl no_tenant
  | some tenant ↦ if tenant == [] then inl no_tenant else inr tenant
]

unfoldable pub subject_for : ArchiveRecord → StreamError ⊎ Text
subject_for rec = elim (kind_for rec.message_type) [
  | none ↦ inl unknown_message_type
  | some kind ↦ inr (subject kind rec.tenant)
]

-- nats.Msg, with the header that carries the message id.
pub record Outgoing : Type 0 where
  pub to_subject : Text
  pub data_bytes : Bytes
  pub msg_id : Text

-- The bytes of messages and records are protobuf's, the hash is the canonical one.
module _ {M : Type 0} (canonical : M → Option Bytes) (hash : Bytes → Bytes) where
  -- `canonical.MarshalAndHash`
  unfoldable pub marshal_and_hash : M → Option (Bytes × Bytes)
  marshal_and_hash m = elim (canonical m) [
    | none ↦ none
    | some payload ↦ some (payload, hash payload)
  ]

  unfoldable pub record_of : Message M → ℤ → StreamError ⊎ ArchiveRecord
  record_of msg event_time = elim (tenant_of msg) [
    | inl e ↦ inl e
    | inr tenant ↦ elim (marshal_and_hash msg.body) [
      | none ↦ inl canonicalize_failed
      | some (payload, sum) ↦ inr (record {
        event_hash = hash_hex sum;
        canonical_payload = payload;
        event_time = event_time;
        message_type = msg.full_name;
        tenant = tenant;
      })
    ]
  ]

module _ (marshal : ArchiveRecord → Option Bytes) where
  -- The message that `Publish` hands to the broker.
  unfoldable pub outgoing : ArchiveRecord → StreamError ⊎ Outgoing
  outgoing rec = elim (subject_for rec) [
    | inl e ↦ inl e
    | inr to_subject ↦ elim (marshal rec) [
      | none ↦ inl marshal_failed
      | some bytes ↦
          inr (record { to_subject = to_subject; data_bytes = bytes; msg_id = rec.event_hash })
    ]
  ]

  -- The messages that reach the broker, and what the caller is told; `accepted` is the broker's answer.
  unfoldable pub publish : Bool → ArchiveRecord → (StreamError ⊎ Unit {0}) × List Outgoing
  publish accepted rec = elim (outgoing rec) [
    | inl e ↦ (inl e, [])
    | inr msg ↦ if accepted then (inr tt, msg ∷ []) else (inl publish_failed, msg ∷ [])
  ]

-- `Archive.Append`: the record, then its publication.
module _ {M : Type 0} (canonical : M → Option Bytes) (hash : Bytes → Bytes)
    (marshal : ArchiveRecord → Option Bytes) where
  unfoldable pub append : Bool → Message M → ℤ → (StreamError ⊎ Unit {0}) × List Outgoing
  append accepted msg event_time = elim (record_of canonical hash msg event_time) [
    | inl e ↦ (inl e, [])
    | inr rec ↦ publish marshal accepted rec
  ]

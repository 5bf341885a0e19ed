-- ===== src/Stream/Publishing.antt =====
-- What the stream carries: the subject of a record, and the way of a message from the service that
-- appends it to the archive's row.
use ghost_trace.Prelude.{
  sum_cases, ℕ, ◌≡◌, ◌≢◌, ap, sym, ◌∙◌, Bool, true, List, [], ◌∷◌, Option, some, inl, inr, arith,
  length, ◌==◌, ℕ_comparable, bytes_comparable, Bool-cases, Option-cases,
}
use ghost_trace.Prelude.Int.{ℤ}
use ghost_trace.Prelude.Text.{Text}
use ghost_trace.Canonical.{Bytes, hash_hex}
use ghost_trace.Consumer.{ArchiveRecord}
use ghost_trace.Consumer.Handle.{classify, keep}
use ghost_trace.Consumer.HexRoundTrip.{IsBytes, decode_hash-hash_hex}
use ghost_trace.Stream.{Kind, kind_for, sanitize_token, subject}
use ghost_trace.Stream.Subjects.{message_type_of, kind_for-message_type_of, subject-injective}
use ghost_trace.Stream.Archive.{
  Message, tenant_of, subject_for, record_of, marshal_and_hash, Outgoing, outgoing, publish, append,
}

subject_for-kind :
    (r : ArchiveRecord) (s : Text)
    → subject_for r ≡ inr s
    → (k : Kind) × (kind_for r.message_type ≡ some k) × (s ≡ subject k r.tenant)
unfolding subject_for
subject_for-kind r s e = elim (Option-cases (kind_for r.message_type)) [
  | inl unknown ↦ absurd (ground arith)
  | inr (k, known) ↦ (k, known, ground arith)
]

-- Two records travel on one subject only if they have one message type and one tenant, up to the
-- bytes that the subject replaces.
pub subject_for-injective :
    (r q : ArchiveRecord) (s : Text)
    → subject_for r ≡ inr s
    → subject_for q ≡ inr s
    → (r.message_type ≡ q.message_type) × (sanitize_token r.tenant ≡ sanitize_token q.tenant)
subject_for-injective r q s er eq =
    let (k, known_r, named_r) = subject_for-kind r s er in
    let (l, known_q, named_q) = subject_for-kind q s eq in
    let (same, tokens) = subject-injective k l r.tenant q.tenant (sym named_r ∙ named_q) in
    (
      kind_for-message_type_of r.message_type k known_r
          ∙ ap message_type_of same
          ∙ sym (kind_for-message_type_of q.message_type l known_q),
      tokens,
    )

tenant_of-ok :
    {M : Type 0} (msg : Message M) (tenant : Text)
    → tenant_of msg ≡ inr tenant
    → (msg.tenant_id ≡ some tenant) × (tenant ≢ [])
unfolding tenant_of
tenant_of-ok msg tenant e = elim (Option-cases msg.tenant_id) [
  | inl undeclared ↦ absurd (ground arith)
  | inr (t, declared) ↦ elim (Bool-cases (t == [])) [
    | inl empty ↦ absurd (ground arith)
    | inr named ↦ ground (arith, bytes_comparable.same_iff t [])
  ]
]

module _ {M : Type 0} (canonical : M → Option Bytes) (hash : Bytes → Bytes)
    (marshal : ArchiveRecord → Option Bytes) where
  abbrev pub record_with : Message M → ℤ → Text → Bytes → ArchiveRecord
  record_with msg event_time tenant payload = record {
    event_hash = hash_hex (hash payload);
    canonical_payload = payload;
    event_time = event_time;
    message_type = msg.full_name;
    tenant = tenant;
  }

  classify-record_with :
      (msg : Message M) (event_time : ℤ) (tenant : Text) (payload : Bytes) (n : ℕ)
      → n ≢ 0
      → IsBytes (hash payload) × (length (hash payload) ≡ 32)
      → classify
          (record { archive_record = record_with msg event_time tenant payload; sequence = n })
        ≡ keep (record {
          payload = payload;
          event_hash = hash payload;
          event_time = event_time;
          message_type = msg.full_name;
          seq = n;
        })
  unfolding classify
  classify-record_with msg event_time tenant payload n placed is_hash =
      ground (arith, decode_hash-hash_hex (hash payload) is_hash.0 is_hash.1)

  pub record_of-ok :
      (msg : Message M) (event_time : ℤ) (r : ArchiveRecord)
      → record_of canonical hash msg event_time ≡ inr r
      → (tenant : Text) × (payload : Bytes) × (tenant_of msg ≡ inr tenant)
        × (canonical msg.body ≡ some payload)
        × (r ≡ record_with msg event_time tenant payload)
  unfolding record_of marshal_and_hash
  record_of-ok msg event_time r e = elim (sum_cases (tenant_of msg)) [
    | inl (x, bad) ↦ absurd (ground arith)
    | inr (tenant, named) ↦ elim (Option-cases (canonical msg.body)) [
      | inl lost ↦ absurd (ground arith)
      | inr (payload, made) ↦ (tenant, payload, named, made, ground arith)
    ]
  ]

  outgoing-ok :
      (r : ArchiveRecord) (m : Outgoing)
      → outgoing marshal r ≡ inr m
      → (subject_for r ≡ inr m.to_subject)
        × (marshal r ≡ some m.data_bytes)
        × (m.msg_id ≡ r.event_hash)
  unfolding outgoing
  outgoing-ok r m e = elim (sum_cases (subject_for r)) [
    | inl (x, bad) ↦ absurd (ground arith)
    | inr (s, named) ↦ elim (Option-cases (marshal r)) [
      | inl lost ↦ absurd (ground arith)
      | inr (bytes, made) ↦ ground arith
    ]
  ]

  publish-ok :
      (accepted : Bool) (r : ArchiveRecord) (sent : List Outgoing)
      → publish marshal accepted r ≡ (inr tt, sent)
      → (m : Outgoing) × (outgoing marshal r ≡ inr m) × (sent ≡ m ∷ []) × (accepted ≡ true)
  unfolding publish
  publish-ok accepted r sent e = elim (sum_cases (outgoing marshal r)) [
    | inl (x, bad) ↦ absurd (ground arith)
    | inr (m, made) ↦ elim (Bool-cases accepted) [
      | inl kept ↦ (m, made, ground arith, kept)
      | inr lost ↦ absurd (ground arith)
    ]
  ]

  append-ok :
      (accepted : Bool) (msg : Message M) (event_time : ℤ) (sent : List Outgoing)
      → append canonical hash marshal accepted msg event_time ≡ (inr tt, sent)
      → (r : ArchiveRecord) × (record_of canonical hash msg event_time ≡ inr r)
        × (publish marshal accepted r ≡ (inr tt, sent))
  unfolding append
  append-ok accepted msg event_time sent e =
      elim (sum_cases (record_of canonical hash msg event_time)) [
        | inl (x, bad) ↦ absurd (ground arith)
        | inr (r, made) ↦ (r, made, ground arith)
      ]

  -- The one message of an Append that reports no error, and the record in it.
  pub append-record_with :
      (accepted : Bool) (msg : Message M) (event_time : ℤ) (sent : List Outgoing)
      → append canonical hash marshal accepted msg event_time ≡ (inr tt, sent)
      → (m : Outgoing) × (payload : Bytes) × (tenant : Text) × (sent ≡ m ∷ [])
        × (canonical msg.body ≡ some payload)
        × (marshal (record_with msg event_time tenant payload) ≡ some m.data_bytes)
  append-record_with accepted msg event_time sent e =
      let (r, made, published) = append-ok accepted msg event_time sent e in
      let (m, out, one, granted) = publish-ok accepted r sent published in
      let (tenant, payload, named, bytes, r_is) = record_of-ok msg event_time r made in
      let (to, written, id) = outgoing-ok r m out in
      (m, payload, tenant, one, bytes, ap marshal (sym r_is) ∙ written)

  -- When Append reports no error, one message was sent and the broker accepted it. Its id is the
  -- hash of the canonical bytes, its subject is that of the message's type and its own tenant, and
  -- the archive reads from it those bytes under that hash, at whatever position it is delivered:
  -- for a hash of 32 bytes, and records that are read back as they were written.
  pub append-classify :
      (unmarshal : Bytes → Option ArchiveRecord)
      → ((r : ArchiveRecord) (b : Bytes) → marshal r ≡ some b → unmarshal b ≡ some r)
      → ((b : Bytes) → IsBytes (hash b) × (length (hash b) ≡ 32))
      → (accepted : Bool) (msg : Message M) (event_time : ℤ) (sent : List Outgoing)
      → append canonical hash marshal accepted msg event_time ≡ (inr tt, sent)
      → (m : Outgoing) × (payload : Bytes) × (tenant : Text) × (r : ArchiveRecord) × (k : Kind)
        × (sent ≡ m ∷ [])
        × (accepted ≡ true)
        × (canonical msg.body ≡ some payload)
        × (msg.tenant_id ≡ some tenant)
        × (tenant ≢ [])
        × (kind_for msg.full_name ≡ some k)
        × (m.to_subject ≡ subject k tenant)
        × (m.msg_id ≡ hash_hex (hash payload))
        × (unmarshal m.data_bytes ≡ some r)
        × ((n : ℕ)
            → n ≢ 0
            → classify (record { archive_record = r; sequence = n })
              ≡ keep (record {
                payload = payload;
                event_hash = hash payload;
                event_time = event_time;
                message_type = msg.full_name;
                seq = n;
              }))
  append-classify unmarshal reads is_hash accepted msg event_time sent e =
      let (r, made, published) = append-ok accepted msg event_time sent e in
      let (m, out, one, granted) = publish-ok accepted r sent published in
      let (tenant, payload, named, bytes, r_is) = record_of-ok msg event_time r made in
      let (to, written, id) = outgoing-ok r m out in
      let (k, known, place) = subject_for-kind r m.to_subject to in
      let (declared, filled) = tenant_of-ok msg tenant named in
      (
        m,
        payload,
        tenant,
        r,
        k,
        one,
        granted,
        bytes,
        declared,
        filled,
        sym (ap (λ q. kind_for q.message_type) r_is) ∙ known,
        place ∙ ap (λ q. subject k q.tenant) r_is,
        id ∙ ap (λ q. q.event_hash) r_is,
        reads r m.data_bytes written,
        λ n placed.
            ap (λ q. classify (record { archive_record = q; sequence = n })) r_is
            ∙ classify-record_with msg event_time tenant payload n placed (is_hash payload),
      )

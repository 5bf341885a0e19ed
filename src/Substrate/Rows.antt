-- ===== src/Substrate/Rows.antt =====
-- The invariant of the archive under the operations that commit or refuse a single record.
use ghost_trace.Prelude.{
  ℕ, ◌≡◌, refl, sym, inl, inr, false, List, some, arith, ◌==◌, bytes_comparable, bytes_equal_iff,
  ℕ_comparable, Bool-cases,
}
use ghost_trace.Prelude.Int.{ℤ}
use ghost_trace.Prelude.Dict.{lookup}
use ghost_trace.Canonical.{Bytes}
use ghost_trace.Substrate.{Result, ok, EventRow, StoredRow, Db, Substrate, Blobs, Io, BatchRecord}
use ghost_trace.Substrate.Blob.{blob_path}
use ghost_trace.Substrate.Append.{
  is_inline, inlined_or_nil, insert_or_ignore, write_oversized, insert_one, append, kept, settle,
  append_canonical,
}
use ghost_trace.Substrate.Batch.{stored_row, transact_at, append_canonical_at, record_rejected}
use ghost_trace.Substrate.WriteOnce.{kept-Keeps, kept-HasFile}
use ghost_trace.Substrate.Soundness.{
  Backed, TableIsSound, IsSound, TableIsSound-Keeps, settle-IsSound, insert_or_ignore-TableIsSound,
}

module _ (hash : Bytes → Bytes) where
  inlined_or_nil-Backed :
      (blobs : Blobs) (h payload : Bytes)
      → hash payload ≡ h
      → (is_inline payload ≡ false → lookup (blob_path h) blobs ≡ some payload)
      → Backed hash blobs h (inlined_or_nil payload (is_inline payload))
  inlined_or_nil-Backed blobs h payload named file = elim (Bool-cases (is_inline payload)) [
    | inl small ↦ rw small named
    | inr large ↦ rw large (payload, file large, named)
  ]

  -- A single row, with or without a position, keeps the invariant.
  insert_kept-IsSound :
      (io : Io) (h payload : Bytes) (r : StoredRow) (s : Substrate) (half : Db → Result Db)
      → r.row.event_hash ≡ h
      → r.payload ≡ inlined_or_nil payload (is_inline payload)
      → hash payload ≡ h
      → ((db' : Db) → half s.db ≡ ok db' → db'.events ≡ (insert_or_ignore r s.db.events).0)
      → IsSound hash s
      → IsSound hash (settle s (kept s.blobs (write_oversized io 0 h payload s.blobs)) half).0
  insert_kept-IsSound io h payload r s half key bytes named inserted sound =
      settle-IsSound hash s _ half rows λ written db' done. rw (inserted db' done) (
        insert_or_ignore-TableIsSound hash _ r s.db.events
          (rw (key, bytes)
            (inlined_or_nil-Backed _ h payload named (kept-HasFile io 0 h payload s.blobs written)))
          rows)
    where
      rows : TableIsSound hash (kept s.blobs (write_oversized io 0 h payload s.blobs)).0 s.db.events
      rows = TableIsSound-Keeps hash s.blobs _ s.db.events (kept-Keeps io 0 h payload s.blobs) sound

  pub append-IsSound :
      (io : Io) (row : EventRow) (payload : Bytes) (s : Substrate)
      → IsSound hash s
      → IsSound hash (append hash io row payload s).0
  unfolding append insert_one
  append-IsSound io row payload s h = elim (Bool-cases (row.event_hash == hash payload)) [
    | inr other ↦ rw (other, append) h
    | inl same ↦
        rw (same, append)
          (insert_kept-IsSound io row.event_hash payload
            (record { row = row; payload = inlined_or_nil payload (is_inline payload) }) s
            (insert_one io row payload) refl refl (sym ((bytes_equal_iff _ _).0 same))
            (λ db' done. ground arith) h)
  ]

  pub append_canonical-IsSound :
      (io : Io) (payload event_hash : Bytes) (event_time : ℤ) (message_type : List ℕ) (at_time : ℤ)
      (s : Substrate)
      → IsSound hash s
      → IsSound hash
          (append_canonical hash io payload event_hash event_time message_type at_time s).0
  unfolding append_canonical
  append_canonical-IsSound io payload event_hash event_time message_type at_time s h =
      elim (Bool-cases (hash payload == event_hash)) [
        | inr other ↦ rw (other, append_canonical) h
        | inl same ↦ rw (same, append_canonical) (append-IsSound io _ payload s h)
      ]

  pub append_canonical_at-IsSound :
      (io : Io) (r : BatchRecord) (at_time : ℤ) (s : Substrate)
      → IsSound hash s
      → IsSound hash (append_canonical_at hash io r at_time s).0
  unfolding append_canonical_at stored_row transact_at
  append_canonical_at-IsSound io r at_time s h = elim (Bool-cases (r.seq == 0)) [
    | inl unset ↦ rw (unset, append_canonical_at) h
    | inr placed ↦ elim (Bool-cases (hash r.payload == r.event_hash)) [
      | inr other ↦ rw (placed, other, append_canonical_at) h
      | inl same ↦
          rw (placed, same, append_canonical_at)
            (insert_kept-IsSound io r.event_hash r.payload (stored_row at_time r) s _ refl refl
              ((bytes_equal_iff _ _).0 same) (λ db' done. ground arith) h)
    ]
  ]

  pub record_rejected-IsSound :
      (io : Io) (seq : ℕ) (s : Substrate)
      → IsSound hash s
      → IsSound hash (record_rejected io seq s).0
  unfolding record_rejected
  record_rejected-IsSound io seq s h = ground arith

-- ===== src/Substrate/History.antt =====
-- The archive over any history of writes: what holds after every one of them, whatever the file
-- system and the database answer.
use ghost_trace.Prelude.{
  ℕ, ◌≡◌, inl, inr, Bool, true, List, [], ◌∷◌, Option, none, some, arith, All, ◌==◌,
  bytes_comparable, bytes_equal_iff, Bool-cases, Option-cases,
}
use ghost_trace.Prelude.Int.{ℤ}
use ghost_trace.Prelude.Dict.{Dict, lookup}
use ghost_trace.Canonical.{Bytes}
use ghost_trace.Substrate.{Result, ok, EventRow, StoredRow, Substrate, Blobs, Io, BatchRecord}
use ghost_trace.Substrate.Blob.{blob_path}
use ghost_trace.Substrate.Append.{append, append_canonical}
use ghost_trace.Substrate.Batch.{append_canonical_batch, append_canonical_at, record_rejected}
use ghost_trace.Substrate.Read.{checked, read_bytes, inline_payload, read_blob, lookup_row}
use ghost_trace.Substrate.Soundness.{RowIsSound, Backed, IsSound, append_canonical_batch-IsSound}
use ghost_trace.Substrate.Rows.{
  append-IsSound, append_canonical-IsSound, append_canonical_at-IsSound, record_rejected-IsSound,
}

pub data Write : Type 0 where
  appends : EventRow → Bytes → Write
  appends_canonical : Bytes → Bytes → ℤ → List ℕ → ℤ → Write
  appends_batch : List BatchRecord → List ℕ → ℤ → Write
  appends_at : BatchRecord → ℤ → Write
  rejects : ℕ → Write

abbrev pub empty_substrate : Substrate
empty_substrate = record { db = record { events = []; position = none }; blobs = [] }

module _ (hash : Bytes → Bytes) where
  unfoldable pub write : Io → Write → Substrate → Substrate × Result (Unit {0})
  write io (appends row payload) s = append hash io row payload s
  write io (appends_canonical payload h event_time message_type at_time) s =
      append_canonical hash io payload h event_time message_type at_time s
  write io (appends_batch recs rejected at_time) s =
      append_canonical_batch hash io recs rejected at_time s
  write io (appends_at r at_time) s = append_canonical_at hash io r at_time s
  write io (rejects seq) s = record_rejected io seq s

  -- Later writes go on from the state that an earlier one left, failed or not.
  unfoldable pub run : List (Io × Write) → Substrate → Substrate
  run [] s = s
  run ((io, w) ∷ ws) s = run ws (write io w s).0

  pub write-IsSound :
      (io : Io) (w : Write) (s : Substrate) → IsSound hash s → IsSound hash (write io w s).0
  unfolding write
  write-IsSound io (appends row payload) s h = append-IsSound hash io row payload s h
  write-IsSound io (appends_canonical payload h event_time message_type at_time) s sound =
      append_canonical-IsSound hash io payload h event_time message_type at_time s sound
  write-IsSound io (appends_batch recs rejected at_time) s h =
      append_canonical_batch-IsSound hash io recs rejected at_time s h
  write-IsSound io (appends_at r at_time) s h = append_canonical_at-IsSound hash io r at_time s h
  write-IsSound io (rejects seq) s h = record_rejected-IsSound hash io seq s h

  run_from-IsSound :
      (ws : List (Io × Write)) (s : Substrate) → IsSound hash s → IsSound hash (run ws s)
  unfolding run
  run_from-IsSound [] s h = h
  run_from-IsSound ((io, w) ∷ ws) s h = run_from-IsSound ws _ (write-IsSound io w s h)

  -- After any sequence of writes to an empty archive, under any outcome of the file system and the
  -- database at each of them, no hash has two rows, and behind every row stand bytes that hash to
  -- the row's name: the inlined payload, or else the file at the path made of that name.
  pub run-IsSound : (ws : List (Io × Write)) → IsSound hash (run ws empty_substrate)
  run-IsSound ws = run_from-IsSound ws empty_substrate (tt, tt)

  checked-named : (h payload result : Bytes) → checked hash h payload ≡ ok result → hash result ≡ h
  unfolding checked
  checked-named h payload result e = ground (arith, bytes_equal_iff h (hash payload))

  read_bytes-named :
      (h : Bytes) (blobs : Blobs) (o : Option Bytes) (result : Bytes)
      → read_bytes hash h blobs o ≡ ok result
      → hash result ≡ h
  unfolding read_bytes
  read_bytes-named h blobs (some payload) result e = checked-named h payload result (ground arith)
  read_bytes-named h blobs none result e = elim (Option-cases (lookup (blob_path h) blobs)) [
    | inl absent ↦ absurd (ground arith)
    | inr (payload, there) ↦ checked-named h payload result (ground arith)
  ]

  -- ReadBlob never returns bytes under a name that they do not hash to, whatever the archive holds
  -- and whether or not the query for the row succeeds.
  pub read_blob-named :
      (query_ok : Bool) (h : Bytes) (s : Substrate) (result : Bytes)
      → read_blob hash query_ok h s ≡ ok result
      → hash result ≡ h
  unfolding read_blob
  read_blob-named query_ok h s result e =
      read_bytes-named h s.blobs (inline_payload (lookup h s.db.events)) result (ground arith)

  row-Backed :
      (blobs : Blobs) (h : Bytes) (r : StoredRow) (events : Dict Bytes StoredRow)
      → All (RowIsSound hash blobs) events
      → lookup h events ≡ some r
      → Backed hash blobs h r.payload
  unfolding lookup
  row-Backed blobs h r [] rows e = absurd (ground arith)
  row-Backed blobs h r ((k, x) ∷ events) rows e = elim (Bool-cases (k == h)) [
    | inl here ↦
        let same : x ≡ r = ground arith in
        let key : k ≡ h = (bytes_equal_iff k h).0 here in rw (← same, ← key) rows.0.1
    | inr later ↦ row-Backed blobs h r events rows.1 (ground arith)
  ]

  read_bytes-Backed :
      (h : Bytes) (blobs : Blobs) (o : Option Bytes)
      → Backed hash blobs h o
      → (payload : Bytes) × (read_bytes hash h blobs o ≡ ok payload) × (hash payload ≡ h)
  unfolding read_bytes
  read_bytes-Backed h blobs (some payload) named =
      (payload, ground (arith, bytes_equal_iff h (hash payload)), named)
  read_bytes-Backed h blobs none (payload, there, named) =
      (payload, ground (arith, bytes_equal_iff h (hash payload)), named)

  -- In a sound archive every row that is listed can be read, and the bytes hash to its name.
  pub read_blob-lookup_row :
      (h : Bytes) (s : Substrate) (row : EventRow)
      → IsSound hash s
      → lookup_row h s ≡ some row
      → (payload : Bytes) × (read_blob hash true h s ≡ ok payload) × (hash payload ≡ h)
  unfolding read_blob lookup_row
  read_blob-lookup_row h s row sound e = elim (Option-cases (lookup h s.db.events)) [
    | inl absent ↦ absurd (ground arith)
    | inr (r, there) ↦
        rw (there, read_blob)
          (read_bytes-Backed h s.blobs r.payload (row-Backed s.blobs h r s.db.events sound.1 there))
  ]

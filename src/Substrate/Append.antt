-- ===== src/Substrate/Append.antt =====
-- `Append` and `AppendCanonical`: one record, one INSERT OR IGNORE, no stream position.
use ghost_trace.Prelude.{
  ℕ, Bool, true, false, List, ◌∷◌, Option, none, some, length, leb, ◌==◌, bytes_comparable,
  if◌then◌else◌,
}
use ghost_trace.Prelude.Int.{ℤ}
use ghost_trace.Prelude.Dict.{Dict, contains}
use ghost_trace.Canonical.{Bytes}
use ghost_trace.Substrate.{
  hash_mismatch, insert_row, Result, ok, err, ◌>>◌, require, EventRow, StoredRow, Db, Substrate,
  Blobs, Io, inline_threshold,
}
use ghost_trace.Substrate.Blob.{blob_path, write_blob}

abbrev pub is_inline : Bytes → Bool
is_inline payload = leb (length payload) inline_threshold

-- `inlinedOrNil`.
abbrev pub inlined_or_nil : Bytes → Bool → Option Bytes
inlined_or_nil payload true = some payload
inlined_or_nil payload false = none

-- The table after INSERT OR IGNORE, with the number of rows affected.
unfoldable pub insert_or_ignore : StoredRow → Dict Bytes StoredRow → Dict Bytes StoredRow × ℕ
insert_or_ignore r events =
    if contains r.row.event_hash events then (events, 0) else ((r.row.event_hash, r) ∷ events, 1)

-- A payload above the threshold gets its file first.
unfoldable pub write_oversized : Io → ℕ → Bytes → Bytes → Blobs → Result Blobs
write_oversized io k hash payload blobs =
    if is_inline payload then ok blobs else write_blob (io.blob k) hash payload blobs

unfoldable pub insert_one : Io → EventRow → Bytes → Db → Result Db
insert_one io row payload db = do
  require (io.insert_ok 0) insert_row
  ok (record db { events = (insert_or_ignore stored db.events).0 })
  where
    stored : StoredRow
    stored = record { row = row; payload = inlined_or_nil payload (is_inline payload) }

-- The blob store after a write, with the error.
abbrev pub kept : Blobs → Result Blobs → Blobs × Result (Unit {0})
kept old (ok blobs) = (blobs, ok tt)
kept old (err e) = (old, err e)

-- The database after a transaction, which rolls back on an error.
abbrev pub commit_or_rollback : Substrate → Result Db → Substrate × Result (Unit {0})
commit_or_rollback s (ok db) = (record s { db = db }, ok tt)
commit_or_rollback s (err e) = (s, err e)

-- The blob half is durable at once; the database half runs only if it succeeded.
abbrev pub settle :
    Substrate → Blobs × Result (Unit {0}) → (Db → Result Db) → Substrate × Result (Unit {0})
settle s (blobs, err e) half = (record s { blobs = blobs }, err e)
settle s (blobs, ok _) half = commit_or_rollback (record s { blobs = blobs }) (half s.db)

module _ (hash : Bytes → Bytes) where
  unfoldable pub append : Io → EventRow → Bytes → Substrate → Substrate × Result (Unit {0})
  unfolding write_oversized insert_one
  append io row payload s =
      if row.event_hash == hash payload
      then settle s (kept s.blobs (write_oversized io 0 row.event_hash payload s.blobs))
          (insert_one io row payload)
      else (s, err hash_mismatch)

  unfoldable pub append_canonical :
      Io → Bytes → Bytes → ℤ → List ℕ → ℤ → Substrate → Substrate × Result (Unit {0})
  append_canonical io payload event_hash event_time message_type committed_at s =
      if hash payload == event_hash then append io row payload s else (s, err hash_mismatch)
    where
      row : EventRow
      row = record {
        event_hash = event_hash;
        event_time = event_time;
        message_type = message_type;
        payload_ref = blob_path event_hash;
        committed_at = committed_at;
      }

-- ===== src/Substrate/Read.antt =====
-- `ReadBlob`, `LookupRow`, `Count`, and the arithmetic of `Position`.
use ghost_trace.Prelude.{
  ℕ, ◌+◌, ◌-◌, Bool, not, ◌||◌, Option, none, some, length, ◌==◌, bytes_comparable, ℕ_comparable,
  if◌then◌else◌,
}
use ghost_trace.Prelude.Int.{ℤ, pos, ◌+ℤ◌, ◌-ℤ◌, to_int64, wrap_int64}
use ghost_trace.Prelude.Dict.{lookup}
use ghost_trace.Canonical.{Bytes}
use ghost_trace.Substrate.{
  hash_mismatch, read_row, read_file, Result, ok, err, ◌>>◌, require, EventRow, StoredRow, Position,
  Substrate, Blobs,
}
use ghost_trace.Substrate.Blob.{blob_path}

-- The inlined payload of a row, if there is a row and it holds one.
abbrev pub inline_payload : Option StoredRow → Option Bytes
inline_payload none = none
inline_payload (some r) = r.payload

module _ (hash : Bytes → Bytes) where
  -- Bytes are returned only under the name that they hash to.
  unfoldable pub checked : Bytes → Bytes → Result Bytes
  checked h payload = if h == hash payload then ok payload else err hash_mismatch

  unfoldable pub read_file_blob : Bytes → Blobs → Result Bytes
  unfolding checked
  read_file_blob h blobs = elim (lookup (blob_path h) blobs) [
    | some payload ↦ checked h payload
    | none ↦ err read_file
  ]

  -- A payload in the row is answered from there, and a NULL one from the file.
  unfoldable pub read_bytes : Bytes → Blobs → Option Bytes → Result Bytes
  unfolding checked read_file_blob
  read_bytes h blobs (some payload) = checked h payload
  read_bytes h blobs none = read_file_blob h blobs

  unfoldable pub read_blob : Bool → Bytes → Substrate → Result Bytes
  unfolding read_bytes
  read_blob query_ok h s = do
    require query_ok read_row
    read_bytes h s.blobs (inline_payload (lookup h s.db.events))

-- `none` is sql.ErrNoRows.
unfoldable pub lookup_row : Bytes → Substrate → Option EventRow
lookup_row h s = elim (lookup h s.db.events) [ none ↦ none | some r ↦ some r.row ]

unfoldable pub count : Substrate → ℕ
count s = length s.db.events

-- uint64 subtraction wraps, and the result is read as an int64.
unfoldable pub span : Position → ℤ
span p =
    if p.highest_seq == 0
    then pos 0
    else wrap_int64 (to_int64 (p.highest_seq + 18446744073709551616 - p.first_seq) +ℤ pos 1)

unfoldable pub unaccounted : Position → ℤ
unaccounted p = wrap_int64 (wrap_int64 (span p -ℤ pos p.committed) -ℤ pos p.rejected)

-- What `PositionAndCount` answers: an error, no row of a position, or both numbers of one read
-- transaction.
pub data PositionRead : Type 0 where
  failed : PositionRead
  fresh : PositionRead
  found : Position → ℕ → PositionRead

-- The three flags are the answers to BeginTx and to the two queries.
unfoldable pub position_and_count : Bool → Bool → Bool → Substrate → PositionRead
position_and_count begin_ok position_ok count_ok s =
    if not begin_ok || not position_ok then failed else elim s.db.position [
      | none ↦ fresh
      | some p ↦ if count_ok then found p (count s) else failed
    ]

-- ===== src/Substrate/Batch.antt =====
-- `AppendCanonicalBatch`, `AppendCanonicalAt` and `RecordRejected`: records and refusals with the
-- stream position, in one transaction.
use ghost_trace.Prelude.{
  ℕ, zero, suc, ◌+◌, min, max, ◌||◌, List, [], ◌∷◌, Option, none, some, length, ltb, ◌==◌,
  ℕ_comparable, bytes_comparable, if◌then◌else◌,
}
use ghost_trace.Prelude.Int.{ℤ}
use ghost_trace.Prelude.Dict.{Dict}
use ghost_trace.Canonical.{Bytes}
use ghost_trace.Substrate.{
  hash_mismatch, no_sequence, begin, prepare, insert_row, rows_affected, upsert_position, commit,
  Result, ok, err, ◌>>=◌, ◌>>◌, require, StoredRow, Position, Db, Substrate, Blobs, BatchRecord, Io,
}
use ghost_trace.Substrate.Blob.{blob_path}
use ghost_trace.Substrate.Append.{
  is_inline, inlined_or_nil, insert_or_ignore, write_oversized, settle, kept, commit_or_rollback,
}

-- The statement positionUpsert.
unfoldable pub position_upsert : ℕ → ℕ → ℕ → ℕ → ℕ → Option Position → Position
position_upsert first highest committed rejected duplicates none = record {
  first_seq = first;
  highest_seq = highest;
  committed = committed;
  rejected = rejected;
  duplicates = duplicates;
}
position_upsert first highest committed rejected duplicates (some p) = record {
  first_seq = min p.first_seq first;
  highest_seq = max p.highest_seq highest;
  committed = p.committed + committed;
  rejected = p.rejected + rejected;
  duplicates = p.duplicates + duplicates;
}

-- The local variables of a batch.
pub record Tally : Type 0 where
  pub committed : ℕ
  pub duplicates : ℕ
  pub first : ℕ
  pub highest : ℕ

-- The closure `span`.
unfoldable pub cover : ℕ → Tally → Tally
cover seq t = record t {
  first = if t.first == 0 || ltb seq t.first then seq else t.first;
  highest = if ltb t.highest seq then seq else t.highest;
}

unfoldable pub cover_rejected : List ℕ → Tally → Result Tally
cover_rejected [] t = ok t
cover_rejected (seq ∷ seqs) t =
    if seq == 0 then err no_sequence else cover_rejected seqs (cover seq t)

-- The row that a record becomes.
unfoldable pub stored_row : ℤ → BatchRecord → StoredRow
stored_row committed_at r = record {
  row = record {
    event_hash = r.event_hash;
    event_time = r.event_time;
    message_type = r.message_type;
    payload_ref = blob_path r.event_hash;
    committed_at = committed_at;
  };
  payload = inlined_or_nil r.payload (is_inline r.payload);
}

-- No row affected is a delivery of a record that is already held.
abbrev pub tally_affected : ℕ → Tally → Tally
tally_affected zero t = record t { duplicates = t.duplicates + 1 }
tally_affected (suc n) t = record t { committed = t.committed + 1 }

unfoldable pub insert_records :
    Io → ℤ → List BatchRecord → Dict Bytes StoredRow × Tally → Result (Dict Bytes StoredRow × Tally)
insert_records io committed_at [] acc = ok acc
insert_records io committed_at (r ∷ rs) (events, t) = do
  require (io.insert_ok (length rs)) insert_row
  require (io.affected_ok (length rs)) rows_affected
  let (events', affected) = insert_or_ignore (stored_row committed_at r) events
  insert_records io committed_at rs (events', cover r.seq (tally_affected affected t))

-- `committed, duplicates := 1, 0`, and the other way round where no row was affected.
abbrev pub counted : ℕ → ℕ × ℕ
counted zero = (0, 1)
counted (suc n) = (1, 0)

-- The files of the oversized payloads; those written before a failure stay.
unfoldable pub write_all_oversized : Io → List BatchRecord → Blobs → Blobs × Result (Unit {0})
write_all_oversized io [] blobs = (blobs, ok tt)
write_all_oversized io (r ∷ rs) blobs =
    elim (write_oversized io (length rs) r.event_hash r.payload blobs) [
      | ok blobs' ↦ write_all_oversized io rs blobs'
      | err e ↦ (blobs, err e)
    ]

abbrev pub empty_tally : Tally
empty_tally = record { committed = 0; duplicates = 0; first = 0; highest = 0 }

-- Everything between BeginTx and Commit.
unfoldable pub transact : Io → ℤ → List BatchRecord → List ℕ → Db → Result Db
transact io committed_at recs rejected db = do
  require io.begin_ok begin
  require io.prepare_ok prepare
  t ← cover_rejected rejected empty_tally
  acc ← insert_records io committed_at recs (db.events, t)
  require io.position_ok upsert_position
  require io.commit_ok commit
  ok (record {
    events = acc.0;
    position = some (
        position_upsert acc.1.first acc.1.highest acc.1.committed (length rejected) acc.1.duplicates
          db.position);
  })

-- `RecordRejected`: one refused sequence, outside any batch.
unfoldable pub record_rejected : Io → ℕ → Substrate → Substrate × Result (Unit {0})
record_rejected io seq s =
    if seq == 0
    then (s, err no_sequence)
    else commit_or_rollback s (do
      require io.position_ok upsert_position
      ok (record s.db { position = some (position_upsert seq seq 0 1 0 s.db.position) }))

-- The transaction of `AppendCanonicalAt`.
unfoldable pub transact_at : Io → StoredRow → ℕ → Db → Result Db
transact_at io row seq db = do
  require io.begin_ok begin
  require (io.insert_ok 0) insert_row
  require (io.affected_ok 0) rows_affected
  let (events, affected) = insert_or_ignore row db.events
  let (committed, duplicates) = counted affected
  require io.position_ok upsert_position
  require io.commit_ok commit
  ok (record {
    events = events;
    position = some (position_upsert seq seq committed 0 duplicates db.position);
  })

-- The durable half of a batch, under the lock.
unfoldable pub commit_batch :
    Io → List BatchRecord → List ℕ → ℤ → Substrate → Substrate × Result (Unit {0})
commit_batch io recs rejected committed_at s =
    settle s (write_all_oversized io recs s.blobs) (transact io committed_at recs rejected)

module _ (hash : Bytes → Bytes) where
  -- Every record is checked before anything durable is touched.
  unfoldable pub verify : List BatchRecord → Result (Unit {0})
  verify [] = ok tt
  verify (r ∷ rs) =
      if r.seq == 0
      then err no_sequence
      else if hash r.payload == r.event_hash
      then verify rs
      else err hash_mismatch

  unfoldable pub append_canonical_batch :
      Io → List BatchRecord → List ℕ → ℤ → Substrate → Substrate × Result (Unit {0})
  append_canonical_batch io [] [] committed_at s = (s, ok tt)
  append_canonical_batch io recs rejected committed_at s = elim (verify recs) [
    | err e ↦ (s, err e)
    | ok _ ↦ commit_batch io recs rejected committed_at s
  ]

  unfoldable pub append_canonical_at :
      Io → BatchRecord → ℤ → Substrate → Substrate × Result (Unit {0})
  append_canonical_at io r committed_at s =
      if r.seq == 0
      then (s, err no_sequence)
      else if hash r.payload == r.event_hash
      then settle s (kept s.blobs (write_oversized io 0 r.event_hash r.payload s.blobs))
          (transact_at io (stored_row committed_at r) r.seq)
      else (s, err hash_mismatch)

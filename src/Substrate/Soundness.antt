-- ===== src/Substrate/Soundness.antt =====
-- The invariant of the archive: no hash has two rows, and every row's bytes, inlined or in their
-- file, hash to the row's name. Each operation keeps it, whatever the system answers.
use ghost_trace.Prelude.{
  ℕ, ◌≡◌, refl, ◌≢◌, inl, inr, List, [], ◌∷◌, Option, none, some, arith, All, All-map,
  bytes_comparable, bytes_equal_iff, ℕ_comparable, Bool-cases,
}
use ghost_trace.Prelude.Int.{ℤ}
use ghost_trace.Prelude.Dict.{Keeps, Dict, lookup, contains, contains-lookup, IsFunctional}
use ghost_trace.Canonical.{Bytes}
use ghost_trace.Substrate.{
  Result, ok, err, StoredRow, Db, Substrate, Blobs, Io, BatchRecord, Result-cases,
}
use ghost_trace.Substrate.Blob.{blob_path}
use ghost_trace.Substrate.Append.{is_inline, insert_or_ignore, settle}
use ghost_trace.Substrate.Batch.{
  commit_batch, write_all_oversized, verify, stored_row, Tally, insert_records, transact,
  append_canonical_batch,
}
use ghost_trace.Substrate.Inversion.{transact-insert_records, insert_records-step}
use ghost_trace.Substrate.WriteOnce.{
  HasFile, write_all_oversized-Keeps, write_all_oversized-HasFile,
}

module _ (hash : Bytes → Bytes) where
  -- The bytes behind a row: the inlined payload, or else the file.
  abbrev pub Backed : Blobs → Bytes → Option Bytes → Type 0
  Backed blobs h (some payload) = hash payload ≡ h
  Backed blobs h none =
      (payload : Bytes) × (lookup (blob_path h) blobs ≡ some payload) × (hash payload ≡ h)

  abbrev pub RowIsSound : Blobs → Bytes × StoredRow → Type 0
  RowIsSound blobs (key, r) = (r.row.event_hash ≡ key) × Backed blobs key r.payload

  abbrev pub TableIsSound : Blobs → Dict Bytes StoredRow → Type 0
  TableIsSound blobs events = IsFunctional events × All (RowIsSound blobs) events

  abbrev pub IsSound : Substrate → Type 0
  IsSound s = TableIsSound s.blobs s.db.events

  Backed-Keeps :
      (old new : Blobs) (h : Bytes) (o : Option Bytes)
      → Keeps old new
      → Backed old h o
      → Backed new h o
  Backed-Keeps old new h (some payload) k b = b
  Backed-Keeps old new h none k (payload, there, named) = (payload, k _ _ there, named)

  pub TableIsSound-Keeps :
      (old new : Blobs) (events : Dict Bytes StoredRow)
      → Keeps old new
      → TableIsSound old events
      → TableIsSound new events
  TableIsSound-Keeps old new events k (functional, rows) = (
    functional,
    All-map (RowIsSound old) (RowIsSound new) events
        (λ r h. (h.0, Backed-Keeps old new r.0 r.1.payload k h.1)) rows,
  )

  pub insert_or_ignore-TableIsSound :
      (blobs : Blobs) (r : StoredRow) (events : Dict Bytes StoredRow)
      → Backed blobs r.row.event_hash r.payload
      → TableIsSound blobs events
      → TableIsSound blobs (insert_or_ignore r events).0
  unfolding insert_or_ignore
  insert_or_ignore-TableIsSound blobs r events b h =
      elim (Bool-cases (contains r.row.event_hash events)) [
        | inl held ↦ rw held h
        | inr fresh ↦ rw fresh ((contains-lookup _ events fresh, h.0), ((refl, b), h.1))
      ]

  -- What `verify` establishes of a record, with what the blob half adds.
  abbrev pub IsVerified : BatchRecord → Type 0
  IsVerified r = (r.seq ≢ 0) × (hash r.payload ≡ r.event_hash)

  pub verify-IsVerified : (recs : List BatchRecord) → verify hash recs ≡ ok tt → All IsVerified recs
  unfolding verify
  verify-IsVerified [] h = tt
  verify-IsVerified (r ∷ rs) h =
      ground (arith, bytes_equal_iff (hash r.payload) r.event_hash, verify-IsVerified rs)

  pub stored_row-Backed :
      (blobs : Blobs) (at_time : ℤ) (r : BatchRecord)
      → hash r.payload ≡ r.event_hash
      → HasFile blobs r
      → Backed blobs r.event_hash (stored_row at_time r).payload
  unfolding stored_row
  stored_row-Backed blobs at_time r named file = elim (Bool-cases (is_inline r.payload)) [
    | inl small ↦ rw small named
    | inr large ↦ rw large (r.payload, file large, named)
  ]

  pub insert_records-TableIsSound :
      (io : Io) (at_time : ℤ) (blobs : Blobs) (recs : List BatchRecord)
      (acc acc' : Dict Bytes StoredRow × Tally)
      → insert_records io at_time recs acc ≡ ok acc'
      → All IsVerified recs
      → All (HasFile blobs) recs
      → TableIsSound blobs acc.0
      → TableIsSound blobs acc'.0
  unfolding insert_records stored_row
  insert_records-TableIsSound io at_time blobs [] acc acc' e v f h =
      let same : acc ≡ acc' = cc in rw (← same) h
  insert_records-TableIsSound io at_time blobs (r ∷ rs) (events, t) acc' e v f h =
      insert_records-TableIsSound io at_time blobs rs _ acc'
        (insert_records-step io at_time r rs events t acc' e) v.1 f.1
        (insert_or_ignore-TableIsSound blobs (stored_row at_time r) events
          (stored_row-Backed blobs at_time r v.0.1 f.0) h)

  -- The records and the position of a batch are decided together.
  pub transact-TableIsSound :
      (io : Io) (at_time : ℤ) (blobs : Blobs) (recs : List BatchRecord) (rejected : List ℕ)
      (db db' : Db)
      → transact io at_time recs rejected db ≡ ok db'
      → All IsVerified recs
      → All (HasFile blobs) recs
      → TableIsSound blobs db.events
      → TableIsSound blobs db'.events
  transact-TableIsSound io at_time blobs recs rejected db db' e v f h =
      let inserted = transact-insert_records io at_time recs rejected db db' e in
      rw inserted.4 (
        insert_records-TableIsSound io at_time blobs recs (db.events, inserted.0) inserted.1
          inserted.3 v f h)

  -- The rule for an operation with a blob half and a database half.
  pub settle-IsSound :
      (s : Substrate) (w : Blobs × Result (Unit {0})) (half : Db → Result Db)
      → TableIsSound w.0 s.db.events
      → (w.1 ≡ ok tt → (db' : Db) → half s.db ≡ ok db' → TableIsSound w.0 db'.events)
      → IsSound (settle s w half).0
  settle-IsSound s (blobs, err e) half kept_rows committed = kept_rows
  settle-IsSound s (blobs, ok u) half kept_rows committed = elim (Result-cases (half s.db)) [
    | inl (db', done) ↦ rw done (committed refl db' done)
    | inr (e, failed) ↦ rw failed kept_rows
  ]

  commit_batch-IsSound :
      (io : Io) (recs : List BatchRecord) (rejected : List ℕ) (at_time : ℤ) (s : Substrate)
      → All IsVerified recs
      → IsSound s
      → IsSound (commit_batch io recs rejected at_time s).0
  unfolding commit_batch
  commit_batch-IsSound io recs rejected at_time s v h =
      settle-IsSound s _ (transact io at_time recs rejected) rows λ written db' done.
        transact-TableIsSound io at_time _ recs rejected s.db db' done v
          (write_all_oversized-HasFile io recs s.blobs _ (ground arith)) rows
    where
      rows : TableIsSound (write_all_oversized io recs s.blobs).0 s.db.events
      rows = TableIsSound-Keeps s.blobs _ s.db.events (write_all_oversized-Keeps io recs s.blobs) h

  -- A batch keeps the invariant, whether it commits, fails or is refused.
  pub append_canonical_batch-IsSound :
      (io : Io) (recs : List BatchRecord) (rejected : List ℕ) (at_time : ℤ) (s : Substrate)
      → IsSound s
      → IsSound (append_canonical_batch hash io recs rejected at_time s).0
  unfolding append_canonical_batch
  append_canonical_batch-IsSound io [] [] at_time s h = h
  append_canonical_batch-IsSound io recs rejected at_time s h =
      elim (Result-cases (verify hash recs)) [
        | inl (_, good) ↦
            rw (good, append_canonical_batch)
              (commit_batch-IsSound io recs rejected at_time s (verify-IsVerified recs good) h)
        | inr (e, bad) ↦ rw (bad, append_canonical_batch) h
      ]

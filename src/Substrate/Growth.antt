-- ===== src/Substrate/Growth.antt =====
-- Append-only: what a write may change of the table and of the files.
use ghost_trace.Prelude.{
  ℕ, ◌≡◌, inl, inr, List, [], ◌∷◌, some, arith, All, ℕ_comparable, bytes_comparable,
  bytes_equal_iff, Bool-cases,
}
use ghost_trace.Prelude.Int.{ℤ}
use ghost_trace.Prelude.Dict.{
  Dict, lookup, contains, contains-lookup, lookup_of_contains, Keeps, Keeps-refl, Keeps-trans,
}
use ghost_trace.Canonical.{Bytes}
use ghost_trace.Substrate.{
  Result, ok, err, StoredRow, Db, Substrate, Blobs, BatchRecord, Io, Result-cases,
}
use ghost_trace.Substrate.Append.{insert_or_ignore, settle}
use ghost_trace.Substrate.Batch.{
  Tally, stored_row, insert_records, transact, commit_batch, append_canonical_batch,
  write_all_oversized, record_rejected,
}
use ghost_trace.Substrate.Inversion.{
  append_canonical_batch-cases, transact-insert_records, insert_records-step,
}
use ghost_trace.Substrate.WriteOnce.{write_all_oversized-Keeps}

-- No row is changed or dropped, and no file either.
pub record Extends (before after : Substrate) : Type 0 where
  pub rows : Keeps before.db.events after.db.events
  pub files : Keeps before.blobs after.blobs

pub insert_or_ignore-Keeps :
    (r : StoredRow) (events : Dict Bytes StoredRow) → Keeps events (insert_or_ignore r events).0
unfolding insert_or_ignore lookup
insert_or_ignore-Keeps r events h x e = elim (Bool-cases (contains r.row.event_hash events)) [
  | inl held ↦ rw held e
  | inr fresh ↦ rw fresh (
      ground
        (arith, contains-lookup r.row.event_hash events fresh, bytes_equal_iff r.row.event_hash h))
]

pub insert_or_ignore-holds :
    (r : StoredRow) (events : Dict Bytes StoredRow)
    → (x : StoredRow) × (lookup r.row.event_hash (insert_or_ignore r events).0 ≡ some x)
unfolding insert_or_ignore lookup
insert_or_ignore-holds r events = elim (Bool-cases (contains r.row.event_hash events)) [
  | inl held ↦ rw held (lookup_of_contains _ events held)
  | inr fresh ↦ rw fresh (r, ground (arith, bytes_equal_iff r.row.event_hash r.row.event_hash))
]

pub insert_records-Keeps :
    (io : Io) (at_time : ℤ) (recs : List BatchRecord) (acc acc' : Dict Bytes StoredRow × Tally)
    → insert_records io at_time recs acc ≡ ok acc'
    → Keeps acc.0 acc'.0
unfolding insert_records
insert_records-Keeps io at_time [] acc acc' e =
    let same : acc ≡ acc' = cc in rw (← same) (Keeps-refl acc.0)
insert_records-Keeps io at_time (r ∷ rs) (events, t) acc' e =
    Keeps-trans events _ acc'.0 (insert_or_ignore-Keeps (stored_row at_time r) events) (
      insert_records-Keeps io at_time rs _ acc'
        (insert_records-step io at_time r rs events t acc' e))

abbrev pub Holds : Dict Bytes StoredRow → BatchRecord → Type 0
Holds events r = (x : StoredRow) × (lookup r.event_hash events ≡ some x)

pub insert_records-Holds :
    (io : Io) (at_time : ℤ) (recs : List BatchRecord) (acc acc' : Dict Bytes StoredRow × Tally)
    → insert_records io at_time recs acc ≡ ok acc'
    → All (Holds acc'.0) recs
unfolding insert_records stored_row
insert_records-Holds io at_time [] acc acc' e = tt
insert_records-Holds io at_time (r ∷ rs) (events, t) acc' e =
    let rest = insert_records-step io at_time r rs events t acc' e in
    let (x, there) = insert_or_ignore-holds (stored_row at_time r) events in
    (
      (x, insert_records-Keeps io at_time rs _ acc' rest _ _ there),
      insert_records-Holds io at_time rs _ acc' rest,
    )

pub settle-Extends :
    (s : Substrate) (w : Blobs × Result (Unit {0})) (half : Db → Result Db)
    → Keeps s.blobs w.0
    → ((db' : Db) → half s.db ≡ ok db' → Keeps s.db.events db'.events)
    → Extends s (settle s w half).0
settle-Extends s (blobs, err y) half files rows = record {
  rows = Keeps-refl s.db.events;
  files = files;
}
settle-Extends s (blobs, ok u) half files rows = elim (Result-cases (half s.db)) [
  | inl (db', done) ↦ rw done (record { rows = rows db' done; files = files })
  | inr (y, failed) ↦ rw failed (record { rows = Keeps-refl s.db.events; files = files })
]

pub Extends-refl : (s : Substrate) → Extends s s
Extends-refl s = record { rows = Keeps-refl s.db.events; files = Keeps-refl s.blobs }

pub record_rejected-rows :
    (io : Io) (seq : ℕ) (s : Substrate)
    → ((record_rejected io seq s).0.db.events ≡ s.db.events)
      × ((record_rejected io seq s).0.blobs ≡ s.blobs)
unfolding record_rejected
record_rejected-rows io seq s = ground arith

module _ (hash : Bytes → Bytes) where
  pub transact-rows :
      (io : Io) (at_time : ℤ) (recs : List BatchRecord) (rejected : List ℕ) (db db' : Db)
      → transact io at_time recs rejected db ≡ ok db'
      → Keeps db.events db'.events × All (Holds db'.events) recs
  transact-rows io at_time recs rejected db db' e =
      let (t, acc, covered, inserted, result) =
        transact-insert_records io at_time recs rejected db db' e in
      rw result (
        insert_records-Keeps io at_time recs _ acc inserted,
        insert_records-Holds io at_time recs _ acc inserted,
      )

  pub append_canonical_batch-Extends :
      (io : Io) (recs : List BatchRecord) (rejected : List ℕ) (at_time : ℤ) (s : Substrate)
      → Extends s (append_canonical_batch hash io recs rejected at_time s).0
  unfolding commit_batch
  append_canonical_batch-Extends io recs rejected at_time s =
      elim (append_canonical_batch-cases hash io recs rejected at_time s) [
        | inl (_, _, result) ↦ rw result (Extends-refl s)
        | inr (inl (x, _, result)) ↦ rw result (Extends-refl s)
        | inr (inr (_, _, result)) ↦ rw result (
            settle-Extends s (write_all_oversized io recs s.blobs)
              (transact io at_time recs rejected) (write_all_oversized-Keeps io recs s.blobs)
              (λ db' done. (transact-rows io at_time recs rejected s.db db' done).0))
      ]

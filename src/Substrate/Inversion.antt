-- ===== src/Substrate/Inversion.antt =====
-- What a committed transaction has been through, step by step.
use ghost_trace.Prelude.{ℕ, ◌≡◌, ◌+◌, ◌<◌, refl, ◌⊎◌, inl, inr, List, [], ◌∷◌, some, length, arith}
use ghost_trace.Prelude.Int.{ℤ}
use ghost_trace.Prelude.Dict.{Dict}
use ghost_trace.Canonical.{Bytes}
use ghost_trace.Substrate.{
  Error, Result, ok, err, StoredRow, Db, Substrate, Blobs, BatchRecord, Io, Result-cases,
}
use ghost_trace.Substrate.Append.{settle, insert_or_ignore}
use ghost_trace.Substrate.Batch.{
  position_upsert, Tally, cover, cover_rejected, stored_row, tally_affected, insert_records,
  empty_tally, transact, commit_batch, verify, append_canonical_batch,
}

-- Inversion of a committed transaction: the tally and the table that it came to.
pub transact-insert_records :
    (io : Io) (at_time : ℤ) (recs : List BatchRecord) (rejected : List ℕ) (db db' : Db)
    → transact io at_time recs rejected db ≡ ok db'
    → (t : Tally) × (acc : Dict Bytes StoredRow × Tally) × (cover_rejected rejected empty_tally
        ≡ ok t)
      × (insert_records io at_time recs (db.events, t) ≡ ok acc)
      × (db' ≡ record {
        events = acc.0;
        position = some (
            position_upsert acc.1.first acc.1.highest acc.1.committed
              (length rejected)
              acc.1.duplicates
              db.position);
      })
unfolding transact
transact-insert_records io at_time recs rejected db db' e =
    elim (Result-cases (cover_rejected rejected empty_tally)) [
      | inr (x, failed) ↦ absurd (ground arith)
      | inl (t, covered) ↦ elim (Result-cases (insert_records io at_time recs (db.events, t))) [
        | inr (x, failed) ↦ absurd (ground arith)
        | inl (acc, inserted) ↦ (t, acc, covered, inserted, ground arith)
      ]
    ]

pub insert_records-step :
    (io : Io) (at_time : ℤ) (r : BatchRecord) (rs : List BatchRecord)
    (events : Dict Bytes StoredRow) (t : Tally) (acc' : Dict Bytes StoredRow × Tally)
    → insert_records io at_time (r ∷ rs) (events, t) ≡ ok acc'
    → let (events', affected) = insert_or_ignore (stored_row at_time r) events in
      insert_records io at_time rs (events', cover r.seq (tally_affected affected t)) ≡ ok acc'
unfolding insert_records
insert_records-step io at_time r rs events t acc' e = ground arith

-- Inversion of an operation that returned no error.
pub settle-ok :
    (s : Substrate) (w : Blobs × Result (Unit {0})) (half : Db → Result Db) (u : Unit {0})
    → (settle s w half).1 ≡ ok u
    → (w.1 ≡ ok tt) × (half s.db ≡ ok (settle s w half).0.db)
settle-ok s (blobs, err x) half u e = absurd (ground arith)
settle-ok s (blobs, ok v) half u e = elim (Result-cases (half s.db)) [
  | inl (db', done) ↦ rw done (refl, refl)
  | inr (x, failed) ↦ absurd (ground arith)
]

pub settle-err :
    (s : Substrate) (w : Blobs × Result (Unit {0})) (half : Db → Result Db) (x : Error)
    → (settle s w half).1 ≡ err x
    → (settle s w half).0.db ≡ s.db
settle-err s (blobs, err y) half x e = refl
settle-err s (blobs, ok u) half x e = elim (Result-cases (half s.db)) [
  | inl (db', done) ↦ absurd (ground arith)
  | inr (y, failed) ↦ rw failed
]

pub settle-files :
    (s : Substrate) (w : Blobs × Result (Unit {0})) (half : Db → Result Db)
    → (settle s w half).0.blobs ≡ w.0
settle-files s (blobs, err y) half = refl
settle-files s (blobs, ok u) half = elim (Result-cases (half s.db)) [
  | inl (db', done) ↦ rw done
  | inr (y, failed) ↦ rw failed
]

-- The three ways in which a batch goes: it is empty, it is refused, or it is committed or fails.
pub append_canonical_batch-cases :
    (hash : Bytes → Bytes) (io : Io) (recs : List BatchRecord) (rejected : List ℕ) (at_time : ℤ)
    (s : Substrate)
    → ((recs ≡ [])
        × (rejected ≡ [])
        × (append_canonical_batch hash io recs rejected at_time s ≡ (s, ok tt)))
      ⊎ ((x : Error) × (verify hash recs ≡ err x)
          × (append_canonical_batch hash io recs rejected at_time s ≡ (s, err x)))
      ⊎ ((verify hash recs ≡ ok tt)
          × (0 < length recs + length rejected)
          × (append_canonical_batch hash io recs rejected at_time s
              ≡ commit_batch io recs rejected at_time s))
unfolding append_canonical_batch
append_canonical_batch-cases hash io [] [] at_time s = inl (refl, refl, refl)
append_canonical_batch-cases hash io recs rejected at_time s =
    elim (Result-cases (verify hash recs)) [
      | inr (x, bad) ↦ inr (inl (x, bad, rw (bad, append_canonical_batch)))
      | inl (_, good) ↦ inr (inr (good, omega arith, rw (good, append_canonical_batch)))
    ]

-- ===== src/Substrate/Accounting.antt =====
-- What a committed operation adds to the position: new rows are commits, rows that were there are
-- duplicates, refusals are rejections, and nothing is counted twice.
use ghost_trace.Prelude.{
  ℕ, ◌+◌, ◌≤◌, ◌≡◌, ◌≢◌, refl, inl, inr, List, [], ◌∷◌, Option, none, some, arith, All, All-map,
  length, ℕ_comparable, bytes_comparable,
}
use ghost_trace.Prelude.Int.{ℤ}
use ghost_trace.Prelude.Dict.{Dict}
use ghost_trace.Canonical.{Bytes}
use ghost_trace.Substrate.{ok, StoredRow, Position, Db, Substrate, BatchRecord, Io, Result-cases}
use ghost_trace.Substrate.Append.{insert_or_ignore}
use ghost_trace.Substrate.Batch.{
  position_upsert, Tally, empty_tally, cover, tally_affected, stored_row, insert_records, transact,
  commit_batch, verify, append_canonical_batch, write_all_oversized,
}
use ghost_trace.Substrate.Inversion.{settle-ok, transact-insert_records, insert_records-step}
use ghost_trace.Substrate.Soundness.{IsVerified, verify-IsVerified}
use ghost_trace.Substrate.Coverage.{
  Within, Walked, cover_rejected-Within, cover_rejected-counts, insert_records-Within,
  position_upsert-Walked, position_upsert-Walked_old,
}

-- The counters, zero before anything is recorded.
abbrev pub committed_total : Option Position → ℕ
committed_total none = 0
committed_total (some p) = p.committed

abbrev pub rejected_total : Option Position → ℕ
rejected_total none = 0
rejected_total (some p) = p.rejected

abbrev pub duplicates_total : Option Position → ℕ
duplicates_total none = 0
duplicates_total (some p) = p.duplicates

insert_or_ignore-length :
    (r : StoredRow) (events : Dict Bytes StoredRow)
    → (length (insert_or_ignore r events).0 ≡ length events + (insert_or_ignore r events).1)
      × ((insert_or_ignore r events).1 ≤ 1)
unfolding insert_or_ignore
insert_or_ignore-length r events = ground arith

tally_affected-counts :
    (n : ℕ) (t : Tally)
    → n ≤ 1
    → ((tally_affected n t).committed ≡ t.committed + n)
      × ((tally_affected n t).committed + (tally_affected n t).duplicates
          ≡ t.committed + t.duplicates + 1)
tally_affected-counts n t h = ground arith

insert_records-counts :
    (io : Io) (at_time : ℤ) (recs : List BatchRecord) (acc acc' : Dict Bytes StoredRow × Tally)
    → insert_records io at_time recs acc ≡ ok acc'
    → (acc'.1.committed + length acc.0 ≡ acc.1.committed + length acc'.0)
      × (acc'.1.committed + acc'.1.duplicates ≡ acc.1.committed + acc.1.duplicates + length recs)
unfolding insert_records cover
insert_records-counts io at_time [] acc acc' e =
    let same : acc ≡ acc' = cc in rw (← same) (omega arith)
insert_records-counts io at_time (r ∷ rs) (events, t) acc' e =
    let row = stored_row at_time r in
    let affected = (insert_or_ignore row events).1 in
    let rest =
      insert_records-counts io at_time rs _ acc'
        (insert_records-step io at_time r rs events t acc' e) in
    let len = insert_or_ignore-length row events in
    omega (arith, len.0, rest.0, rest.1, tally_affected-counts affected t len.1)

position_upsert-totals :
    (first highest c r d : ℕ) (p : Option Position)
    → let q = some (position_upsert first highest c r d p) in
      (committed_total q ≡ committed_total p + c)
      × (rejected_total q ≡ rejected_total p + r)
      × (duplicates_total q ≡ duplicates_total p + d)
unfolding position_upsert
position_upsert-totals first highest c r d none = omega arith
position_upsert-totals first highest c r d (some p) = (refl, refl, refl)

-- What one committed transaction does to the counters and the range.
pub record Accounts (before after : Db) (recs : List BatchRecord) (rejected : List ℕ) : Type 0 where
  pub new_rows :
      committed_total after.position + length before.events
      ≡ committed_total before.position + length after.events
  pub delivered :
      committed_total after.position + duplicates_total after.position
      ≡ committed_total before.position + duplicates_total before.position + length recs
  pub refused : rejected_total after.position ≡ rejected_total before.position + length rejected
  pub walked_records : All (λ r. Walked after.position r.seq) recs
  pub walked_rejected : All (Walked after.position) rejected
  pub walked_before : (seq : ℕ) → Walked before.position seq → Walked after.position seq

transact-Accounts :
    (io : Io) (at_time : ℤ) (recs : List BatchRecord) (rejected : List ℕ) (db db' : Db)
    → All (λ r. r.seq ≢ 0) recs
    → transact io at_time recs rejected db ≡ ok db'
    → Accounts db db' recs rejected
transact-Accounts io at_time recs rejected db db' placed e =
    let (t, acc, covered, inserted, result) =
      transact-insert_records io at_time recs rejected db db' e in
    let range = cover_rejected-Within rejected empty_tally t covered in
    let ranges = insert_records-Within io at_time recs (db.events, t) acc placed inserted in
    let none_yet = cover_rejected-counts rejected empty_tally t covered in
    let counts = insert_records-counts io at_time recs (db.events, t) acc inserted in
    let totals =
      position_upsert-totals acc.1.first acc.1.highest acc.1.committed (length rejected)
        acc.1.duplicates db.position in
    rw result (record {
      new_rows = omega (arith, none_yet.0, counts.0, totals.0);
      delivered = omega (arith, none_yet.0, none_yet.1, counts.1, totals.0, totals.2);
      refused = totals.1;
      walked_records =
          All-map (λ r. Within acc.1 r.seq) _ recs
            (λ r w. position_upsert-Walked acc.1 _ _ _ r.seq db.position w) ranges.1;
      walked_rejected =
          All-map (Within t) _ rejected
            (λ seq w. position_upsert-Walked acc.1 _ _ _ seq db.position (ranges.0 seq w)) range.1;
      walked_before = λ seq w. position_upsert-Walked_old _ _ _ _ _ seq db.position w;
    })

module _ (hash : Bytes → Bytes) where
  nothing-Accounts : (db : Db) → Accounts db db [] []
  nothing-Accounts db = record {
    new_rows = refl;
    delivered = omega arith;
    refused = omega arith;
    walked_records = tt;
    walked_rejected = tt;
    walked_before = λ seq w. w;
  }

  -- When AppendCanonicalBatch returns no error, the commits it adds are exactly the rows it adds;
  -- commits and duplicates together grow by the number of records, and rejections by the number
  -- of refused sequences. Every sequence of the batch, kept or refused, then lies in the walked
  -- range, and so does every sequence that did before.
  pub append_canonical_batch-Accounts :
      (io : Io) (recs : List BatchRecord) (rejected : List ℕ) (at_time : ℤ) (s : Substrate)
      → (append_canonical_batch hash io recs rejected at_time s).1 ≡ ok tt
      → Accounts s.db (append_canonical_batch hash io recs rejected at_time s).0.db recs rejected
  unfolding append_canonical_batch commit_batch
  append_canonical_batch-Accounts io [] [] at_time s e = nothing-Accounts s.db
  append_canonical_batch-Accounts io recs rejected at_time s e =
      elim (Result-cases (verify hash recs)) [
        | inr (x, bad) ↦ absurd (ground arith)
        | inl (_, good) ↦
            let settled =
              settle-ok s (write_all_oversized io recs s.blobs) (transact io at_time recs rejected)
                tt (ground arith) in
            rw (good, append_canonical_batch)
              (transact-Accounts io at_time recs rejected s.db _
                (All-map (IsVerified hash) _ recs (λ r v. v.0) (verify-IsVerified hash recs good))
                settled.1)
      ]

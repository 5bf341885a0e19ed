-- ===== src/Substrate/Mismatch.antt =====
-- The error of a hash mismatch comes from the check of the payloads and from nothing behind it.
use ghost_trace.Prelude.{
  ℕ, ◌≡◌, ◌≢◌, ap, ◌∙◌, inl, inr, List, [], ◌∷◌, Option, none, some, arith, length, ℕ_comparable,
  bytes_comparable, bytes_equal_iff,
}
use ghost_trace.Prelude.Int.{ℤ}
use ghost_trace.Prelude.Dict.{Dict, lookup}
use ghost_trace.Canonical.{Bytes}
use ghost_trace.Substrate.{
  Error, hash_mismatch, Result, ok, err, StoredRow, Db, Substrate, Blobs, BatchRecord, BlobIo, Io,
  Result-cases,
}
use ghost_trace.Substrate.Blob.{blob_path, create_blob, place_blob, write_blob}
use ghost_trace.Substrate.Append.{insert_or_ignore, write_oversized, settle}
use ghost_trace.Substrate.Batch.{
  Tally, empty_tally, cover, cover_rejected, stored_row, tally_affected, insert_records, transact,
  commit_batch, verify, append_canonical_batch, write_all_oversized,
}
use ghost_trace.Substrate.Inversion.{append_canonical_batch-cases}

err-injective {ℓ} : {A : Type ℓ} {x y : Error} → ◌≡◌ {A = Result A} (err x) (err y) → x ≡ y
err-injective e = cc

create_blob-ne :
    (io : BlobIo) (path : List ℕ) (payload : Bytes) (blobs : Blobs)
    → create_blob io path payload blobs ≢ err hash_mismatch
unfolding create_blob
create_blob-ne io path payload blobs e = ground arith

place_blob-ne :
    (io : BlobIo) (path : List ℕ) (payload : Bytes) (blobs : Blobs) (found : Option Bytes)
    → place_blob io path payload blobs found ≢ err hash_mismatch
unfolding place_blob
place_blob-ne io path payload blobs (some existing) e = ground arith
place_blob-ne io path payload blobs none e = create_blob-ne io path payload blobs e

write_oversized-ne :
    (io : Io) (k : ℕ) (h payload : Bytes) (blobs : Blobs)
    → write_oversized io k h payload blobs ≢ err hash_mismatch
unfolding write_oversized write_blob
write_oversized-ne io k h payload blobs e =
    ground
      (arith, place_blob-ne (io.blob k) (blob_path h) payload blobs (lookup (blob_path h) blobs))

write_all_oversized-ne :
    (io : Io) (recs : List BatchRecord) (blobs : Blobs)
    → (write_all_oversized io recs blobs).1 ≢ err hash_mismatch
unfolding write_all_oversized
write_all_oversized-ne io [] blobs e = ground arith
write_all_oversized-ne io (r ∷ rs) blobs e =
    elim (Result-cases (write_oversized io (length rs) r.event_hash r.payload blobs)) [
      | inl (blobs', done) ↦
          write_all_oversized-ne io rs blobs' (rw (done, write_all_oversized) at e)
      | inr (x, failed) ↦
          write_oversized-ne io (length rs) r.event_hash r.payload blobs
            (failed ∙ ap err (err-injective (rw (failed, write_all_oversized) at e)))
    ]

cover_rejected-ne : (seqs : List ℕ) (t : Tally) → cover_rejected seqs t ≢ err hash_mismatch
unfolding cover_rejected
cover_rejected-ne [] t e = ground arith
cover_rejected-ne (seq ∷ seqs) t e = ground (arith, cover_rejected-ne seqs (cover seq t))

insert_records-ne :
    (io : Io) (at_time : ℤ) (recs : List BatchRecord) (acc : Dict Bytes StoredRow × Tally)
    → insert_records io at_time recs acc ≢ err hash_mismatch
unfolding insert_records
insert_records-ne io at_time [] acc e = ground arith
insert_records-ne io at_time (r ∷ rs) (events, t) e =
    let (events', affected) = insert_or_ignore (stored_row at_time r) events in
    ground
      (arith, insert_records-ne io at_time rs (events', cover r.seq (tally_affected affected t)))

transact-ne :
    (io : Io) (at_time : ℤ) (recs : List BatchRecord) (rejected : List ℕ) (db : Db)
    → transact io at_time recs rejected db ≢ err hash_mismatch
unfolding transact
transact-ne io at_time recs rejected db e =
    elim (Result-cases (cover_rejected rejected empty_tally)) [
      | inr (x, failed) ↦ ground (arith, cover_rejected-ne rejected empty_tally)
      | inl (t, covered) ↦ ground (arith, insert_records-ne io at_time recs (db.events, t))
    ]

settle-ne :
    (s : Substrate) (w : Blobs × Result (Unit {0})) (half : Db → Result Db)
    → w.1 ≢ err hash_mismatch
    → half s.db ≢ err hash_mismatch
    → (settle s w half).1 ≢ err hash_mismatch
settle-ne s (blobs, err x) half hw hh e = hw e
settle-ne s (blobs, ok u) half hw hh e = elim (Result-cases (half s.db)) [
  | inl (db', done) ↦ ground arith
  | inr (x, failed) ↦ hh (failed ∙ ap err (err-injective (rw failed at e)))
]

commit_batch-ne :
    (io : Io) (recs : List BatchRecord) (rejected : List ℕ) (at_time : ℤ) (s : Substrate)
    → (commit_batch io recs rejected at_time s).1 ≢ err hash_mismatch
unfolding commit_batch
commit_batch-ne io recs rejected at_time s =
    settle-ne s (write_all_oversized io recs s.blobs) (transact io at_time recs rejected)
      (write_all_oversized-ne io recs s.blobs) (transact-ne io at_time recs rejected s.db)

module _ (hash : Bytes → Bytes) where
  verify_one :
      (r : BatchRecord) → verify hash (r ∷ []) ≡ err hash_mismatch → hash r.payload ≢ r.event_hash
  unfolding verify
  verify_one r e same = ground (arith, bytes_equal_iff (hash r.payload) r.event_hash)

  -- A single record that is refused for a mismatch does not hash to its name.
  pub mismatch_of_one :
      (io : Io) (r : BatchRecord) (at_time : ℤ) (s : Substrate)
      → (append_canonical_batch hash io (r ∷ []) [] at_time s).1 ≡ err hash_mismatch
      → hash r.payload ≢ r.event_hash
  mismatch_of_one io r at_time s e =
      elim (append_canonical_batch-cases hash io (r ∷ []) [] at_time s) [
        | inl (no_recs, _, _) ↦ absurd (ground arith)
        | inr (inl (x, bad, result)) ↦
            let same : x ≡ hash_mismatch = ground arith in verify_one r (rw same at bad)
        | inr (inr (_, _, result)) ↦
            absurd (commit_batch-ne io (r ∷ []) [] at_time s (rw result at e))
      ]

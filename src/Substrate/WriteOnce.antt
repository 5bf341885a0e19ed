-- ===== src/Substrate/WriteOnce.antt =====
-- What the blob store keeps: a file that is there is never changed, and a write that succeeds
-- leaves the payload under its path.
use ghost_trace.Prelude.{
  ℕ, ◌≡◌, refl, ap, inl, inr, false, List, [], ◌∷◌, Option, none, some, length, arith, All, ◌==◌,
  bytes_comparable, bytes_equal_iff, Bool-cases,
}
use ghost_trace.Prelude.Dict.{
  Keeps, Keeps-refl, Keeps-trans, lookup, insert, lookup-insert, lookup-insert_self,
}
use ghost_trace.Canonical.{Bytes}
use ghost_trace.Substrate.{Result, ok, Blobs, BlobIo, Io, BatchRecord, Result-cases}
use ghost_trace.Substrate.Blob.{blob_path, create_blob, place_blob, write_blob}
use ghost_trace.Substrate.Append.{is_inline, kept, write_oversized}
use ghost_trace.Substrate.Batch.{write_all_oversized}

insert-Keeps :
    (path : List ℕ) (payload : Bytes) (blobs : Blobs)
    → lookup path blobs ≡ none
    → Keeps blobs (insert path payload blobs)
insert-Keeps path payload blobs absent q p h =
    ground (arith, lookup-insert path q payload blobs, bytes_equal_iff path q)

create_blob-eq :
    (io : BlobIo) (path : List ℕ) (payload : Bytes) (blobs blobs' : Blobs)
    → create_blob io path payload blobs ≡ ok blobs'
    → blobs' ≡ insert path payload blobs
unfolding create_blob
create_blob-eq io path payload blobs blobs' h = ground arith

place_blob_lem :
    (io : BlobIo) (path : List ℕ) (payload : Bytes) (blobs : Blobs) (found : Option Bytes)
    (blobs' : Blobs)
    → lookup path blobs ≡ found
    → place_blob io path payload blobs found ≡ ok blobs'
    → Keeps blobs blobs' × (lookup path blobs' ≡ some payload)
unfolding place_blob
place_blob_lem io path payload blobs (some existing) blobs' there e =
    elim (Bool-cases (existing == payload)) [
      | inl same ↦
          let unchanged : blobs ≡ blobs' = ground arith in
          rw (← unchanged) (Keeps-refl blobs, ground (arith, bytes_equal_iff existing payload))
      | inr other ↦ absurd (ground arith)
    ]
place_blob_lem io path payload blobs none blobs' there e =
    rw (create_blob-eq io path payload blobs blobs' e)
      (insert-Keeps path payload blobs there, lookup-insert_self path payload blobs)

-- A write that succeeds keeps every file and leaves the payload under its path.
pub write_blob_lem :
    (io : BlobIo) (h : Bytes) (payload : Bytes) (blobs blobs' : Blobs)
    → write_blob io h payload blobs ≡ ok blobs'
    → Keeps blobs blobs' × (lookup (blob_path h) blobs' ≡ some payload)
unfolding write_blob
write_blob_lem io h payload blobs blobs' e =
    place_blob_lem io (blob_path h) payload blobs _ blobs' refl (ground arith)

pub write_oversized_lem :
    (io : Io) (k : ℕ) (h : Bytes) (payload : Bytes) (blobs blobs' : Blobs)
    → write_oversized io k h payload blobs ≡ ok blobs'
    → Keeps blobs blobs' × (is_inline payload ≡ false → lookup (blob_path h) blobs' ≡ some payload)
unfolding write_oversized
write_oversized_lem io k h payload blobs blobs' e = elim (Bool-cases (is_inline payload)) [
  | inl small ↦
      let unchanged : blobs ≡ blobs' = ground arith in
      rw (← unchanged) (Keeps-refl blobs, λ large. absurd (ground arith))
  | inr large ↦
      let placed = write_blob_lem (io.blob k) h payload blobs blobs' (ground arith) in
      (placed.0, λ _. placed.1)
]

pub kept-Keeps :
    (io : Io) (k : ℕ) (h payload : Bytes) (blobs : Blobs)
    → Keeps blobs (kept blobs (write_oversized io k h payload blobs)).0
kept-Keeps io k h payload blobs = elim (Result-cases (write_oversized io k h payload blobs)) [
  | inl (blobs', written) ↦ rw written (write_oversized_lem io k h payload blobs blobs' written).0
  | inr (e, failed) ↦ rw failed (Keeps-refl blobs)
]

pub kept-HasFile :
    (io : Io) (k : ℕ) (h payload : Bytes) (blobs : Blobs)
    → (kept blobs (write_oversized io k h payload blobs)).1 ≡ ok tt
    → is_inline payload ≡ false
    → lookup (blob_path h) (kept blobs (write_oversized io k h payload blobs)).0 ≡ some payload
kept-HasFile io k h payload blobs e large =
    elim (Result-cases (write_oversized io k h payload blobs)) [
      | inl (blobs', written) ↦
          rw written ((write_oversized_lem io k h payload blobs blobs' written).1 large)
      | inr (x, failed) ↦ absurd (ground arith)
    ]

-- Whatever the outcome, the files of a batch keep the old ones.
pub write_all_oversized-Keeps :
    (io : Io) (recs : List BatchRecord) (blobs : Blobs)
    → Keeps blobs (write_all_oversized io recs blobs).0
unfolding write_all_oversized
write_all_oversized-Keeps io [] blobs = Keeps-refl blobs
write_all_oversized-Keeps io (r ∷ rs) blobs =
    elim (Result-cases (write_oversized io (length rs) r.event_hash r.payload blobs)) [
      | inl (blobs', done) ↦
          rw (done, write_all_oversized)
            (Keeps-trans blobs blobs' _
              (write_oversized_lem io (length rs) r.event_hash r.payload blobs blobs' done).0
              (write_all_oversized-Keeps io rs blobs'))
      | inr (e, failed) ↦ rw (failed, write_all_oversized) (Keeps-refl blobs)
    ]

abbrev pub HasFile : Blobs → BatchRecord → Type 0
HasFile blobs r =
    is_inline r.payload ≡ false → lookup (blob_path r.event_hash) blobs ≡ some r.payload

-- After a write that succeeds, each oversized payload of the batch has its file.
pub write_all_oversized-HasFile :
    (io : Io) (recs : List BatchRecord) (blobs final : Blobs)
    → write_all_oversized io recs blobs ≡ (final, ok tt)
    → All (HasFile final) recs
unfolding write_all_oversized
write_all_oversized-HasFile io [] blobs final h = tt
write_all_oversized-HasFile io (r ∷ rs) blobs final h =
    elim (Result-cases (write_oversized io (length rs) r.event_hash r.payload blobs)) [
      | inl (blobs', done) ↦
          let rest : write_all_oversized io rs blobs' ≡ (final, ok tt) =
            rw (done, write_all_oversized) at h in
          let kept : Keeps blobs' final =
            rw (ap (λ (p : Blobs × Result (Unit {0})). p.0) rest) at
              (write_all_oversized-Keeps io rs blobs') in
          (
            λ large. kept _ _ (
                (write_oversized_lem io (length rs) r.event_hash r.payload blobs blobs' done).1
                  large),
            write_all_oversized-HasFile io rs blobs' final rest,
          )
      | inr (e, failed) ↦ absurd (ground arith)
    ]

-- ===== src/Substrate/Redelivery.antt =====
-- At-least-once delivery: what happens when a batch that was decided before is delivered again.
use ghost_trace.Prelude.{
  ℕ, ◌+◌, ◌-◌, ◌≤◌, ◌<◌, ◌≡◌, ◌≢◌, ◌⊎◌, refl, ap, ◌∙◌, inl, inr, List, [], ◌∷◌, some, arith, All,
  All-map, length, ℕ_comparable, bytes_comparable,
}
use ghost_trace.Prelude.Int.{ℤ, sub_ℕ}
use ghost_trace.Prelude.Dict.{Dict, lookup, contains_of_lookup}
use ghost_trace.Canonical.{Bytes}
use ghost_trace.Substrate.{Result, ok, StoredRow, Position, Db, Substrate, BatchRecord, Io}
use ghost_trace.Substrate.Append.{insert_or_ignore}
use ghost_trace.Substrate.Batch.{
  position_upsert, Tally, empty_tally, cover, cover_rejected, tally_affected, stored_row,
  insert_records, transact, commit_batch, append_canonical_batch, write_all_oversized,
}
use ghost_trace.Substrate.Read.{unaccounted}
use ghost_trace.Substrate.Inversion.{
  settle-ok, transact-insert_records, insert_records-step, append_canonical_batch-cases,
}
use ghost_trace.Substrate.Soundness.{verify-IsVerified, IsVerified}
use ghost_trace.Substrate.Coverage.{
  Within, cover_rejected-Within, cover_rejected-counts, insert_records-Within,
}
use ghost_trace.Substrate.Growth.{Holds}
use ghost_trace.Substrate.Loss.{unaccounted_lem}

-- A sequence inside the range that a position has walked.
abbrev pub InRange : Position → ℕ → Type 0
InRange p seq = (p.first_seq ≤ seq) × (seq ≤ p.highest_seq)

record Inside (p : Position) (t : Tally) : Type 0 where
  low : (t.first ≡ 0) ⊎ (p.first_seq ≤ t.first)
  high : t.highest ≤ p.highest_seq

cover-Inside :
    (p : Position) (seq : ℕ) (t : Tally) → InRange p seq → Inside p t → Inside p (cover seq t)
unfolding cover
cover-Inside p seq t h i = ground arith

cover_rejected-Inside :
    (p : Position) (seqs : List ℕ) (t t' : Tally)
    → cover_rejected seqs t ≡ ok t'
    → All (InRange p) seqs
    → Inside p t
    → Inside p t'
unfolding cover_rejected
cover_rejected-Inside p [] t t' e h i = let same : t ≡ t' = cc in rw (← same) i
cover_rejected-Inside p (seq ∷ seqs) t t' e h i =
    cover_rejected-Inside p seqs (cover seq t) t' (ground arith) h.1 (cover-Inside p seq t h.0 i)

pub insert_or_ignore-held :
    (r : StoredRow) (events : Dict Bytes StoredRow) (x : StoredRow)
    → lookup r.row.event_hash events ≡ some x
    → insert_or_ignore r events ≡ (events, 0)
unfolding insert_or_ignore
insert_or_ignore-held r events x h = rw (contains_of_lookup r.row.event_hash x events h)

insert_records-held :
    (io : Io) (at_time : ℤ) (p : Position) (recs : List BatchRecord) (events : Dict Bytes StoredRow)
    (t : Tally) (acc' : Dict Bytes StoredRow × Tally)
    → insert_records io at_time recs (events, t) ≡ ok acc'
    → All (Holds events) recs
    → All (λ r. InRange p r.seq) recs
    → Inside p t
    → (acc'.0 ≡ events)
      × (acc'.1.committed ≡ t.committed)
      × (acc'.1.duplicates ≡ t.duplicates + length recs)
      × Inside p acc'.1
unfolding insert_records stored_row cover
insert_records-held io at_time p [] events t acc' e held range i =
    let same : (events, t) ≡ acc' = cc in rw (← same) (refl, refl, omega arith, i)
insert_records-held io at_time p (r ∷ rs) events t acc' e held range i =
    let (x, there) = held.0 in
    let same = insert_or_ignore-held (stored_row at_time r) events x there in
    let t' = cover r.seq (tally_affected 0 t) in
    let rest : insert_records io at_time rs (events, t') ≡ ok acc' =
      rw same at (insert_records-step io at_time r rs events t acc' e) in
    let ih =
      insert_records-held io at_time p rs events t' acc' rest held.1 range.1 (
        cover-Inside p r.seq (tally_affected 0 t) range.0
          (record { low = i.low; high = i.high })) in
    (ih.0, ih.1, omega (arith, ih.2), ih.3)

-- A nonempty transaction has a first sequence inside the range, so that the upsert moves nothing.
upsert-Inside :
    (p : Position) (t : Tally) (rejected : ℕ)
    → 0 < t.first
    → Inside p t
    → position_upsert t.first t.highest t.committed rejected t.duplicates (some p) ≡ record p {
      committed = p.committed + t.committed;
      rejected = p.rejected + rejected;
      duplicates = p.duplicates + t.duplicates;
    }
unfolding position_upsert
upsert-Inside p t rejected placed i = ground arith

first_placed :
    (t t' : Tally) (recs : List BatchRecord) (rejected : List ℕ)
    → All (λ r. Within t' r.seq) recs
    → All (Within t) rejected
    → ((x : ℕ) → Within t x → Within t' x)
    → 0 < length recs + length rejected
    → 0 < t'.first
first_placed t t' [] [] wr ws grow h = absurd (omega arith)
first_placed t t' [] (seq ∷ seqs) wr ws grow h = (grow seq ws.0).set
first_placed t t' (r ∷ rs) rejected wr ws grow h = wr.0.set

transact-held :
    (io : Io) (at_time : ℤ) (p : Position) (recs : List BatchRecord) (rejected : List ℕ)
    (db db' : Db)
    → transact io at_time recs rejected db ≡ ok db'
    → db.position ≡ some p
    → All (λ r. r.seq ≢ 0) recs
    → All (Holds db.events) recs
    → All (λ r. InRange p r.seq) recs
    → All (InRange p) rejected
    → 0 < length recs + length rejected
    → db' ≡ record {
      events = db.events;
      position = some (record p {
        rejected = p.rejected + length rejected;
        duplicates = p.duplicates + length recs;
      });
    }
transact-held io at_time p recs rejected db db' e known placed held range range_rejected nonempty =
    let (t, acc, covered, inserted, result) =
      transact-insert_records io at_time recs rejected db db' e in
    let refused =
      cover_rejected-Inside p rejected empty_tally t covered range_rejected
        (record { low = inl refl; high = omega arith }) in
    let kept = insert_records-held io at_time p recs db.events t acc inserted held range refused in
    let counts = cover_rejected-counts rejected empty_tally t covered in
    let in_batch = insert_records-Within io at_time recs (db.events, t) acc placed inserted in
    let first =
      first_placed t acc.1 recs rejected in_batch.1
        (cover_rejected-Within rejected empty_tally t covered).1 in_batch.0 nonempty in
    let moved = upsert-Inside p acc.1 (length rejected) first kept.3 in
    rw (result, kept.0, known, moved) (ground (arith, kept, counts))

module _ (hash : Bytes → Bytes) where
  -- A batch all of whose records are already in the table, and all of whose sequences lie in the
  -- walked range, leaves the table as it is when it commits. The position gains one duplicate for
  -- each record and one rejection for each refused sequence, and nothing else of it changes.
  pub redelivery_position :
      (io : Io) (at_time : ℤ) (p : Position) (recs : List BatchRecord) (rejected : List ℕ)
      (s s' : Substrate)
      → append_canonical_batch hash io recs rejected at_time s ≡ (s', ok tt)
      → s.db.position ≡ some p
      → All (Holds s.db.events) recs
      → All (λ r. InRange p r.seq) recs
      → All (InRange p) rejected
      → s'.db ≡ record {
        events = s.db.events;
        position = some (record p {
          rejected = p.rejected + length rejected;
          duplicates = p.duplicates + length recs;
        });
      }
  unfolding commit_batch
  redelivery_position io at_time p recs rejected s s' e known held range range_rejected =
      elim (append_canonical_batch-cases hash io recs rejected at_time s) [
        | inl (no_recs, no_rejected, result) ↦
            let same : s ≡ s' = ground arith in rw (no_recs, no_rejected, ← same) (ground arith)
        | inr (inl (x, _, result)) ↦ absurd (ground arith)
        | inr (inr (good, nonempty, result)) ↦
            let committed : commit_batch io recs rejected at_time s ≡ (s', ok tt) = cc in
            let settled =
              settle-ok s (write_all_oversized io recs s.blobs) (transact io at_time recs rejected)
                tt (ap (λ (q : Substrate × Result (Unit {0})). q.1) committed) in
            let final : (commit_batch io recs rejected at_time s).0 ≡ s' =
              ap (λ (q : Substrate × Result (Unit {0})). q.0) committed in
            transact-held io at_time p recs rejected s.db s'.db (rw final at settled.1) known
              (All-map (IsVerified hash) _ recs (λ r v. v.0) (verify-IsVerified hash recs good))
              held range range_rejected nonempty
      ]

  -- When a batch of refusals alone commits again for sequences that lie in the walked range, and
  -- the numbers involved are below 2^62: before it the loss figure is the number of sequences
  -- walked less those counted as committed or rejected, and after it the figure is lower by the
  -- number of sequences that were refused again, as an integer that may be negative.
  pub unaccounted_redelivered_refusals :
      (io : Io) (at_time : ℤ) (p : Position) (rejected : List ℕ) (s s' : Substrate)
      → append_canonical_batch hash io [] rejected at_time s ≡ (s', ok tt)
      → s.db.position ≡ some p
      → All (InRange p) rejected
      → 0 < p.first_seq
      → p.first_seq ≤ p.highest_seq
      → p.highest_seq < 4611686018427387904
      → p.committed < 4611686018427387904
      → p.rejected + length rejected < 4611686018427387904
      → (q : Position) × (s'.db.position ≡ some q)
        × (unaccounted p ≡ sub_ℕ (p.highest_seq - p.first_seq + 1) (p.committed + p.rejected))
        × (unaccounted q
            ≡ sub_ℕ (p.highest_seq - p.first_seq + 1) (p.committed + p.rejected + length rejected))
  unaccounted_redelivered_refusals io at_time p rejected s s' e known range h k b c r =
      let q : Position = record p {
        rejected = p.rejected + length rejected;
        duplicates = p.duplicates + 0;
      } in
      (
        q,
        ap (λ (db : Db). db.position)
            (redelivery_position io at_time p [] rejected s s' e known tt tt range),
        unaccounted_lem p h k b c (omega arith),
        unaccounted_lem q h k b c r ∙ ap (sub_ℕ (p.highest_seq - p.first_seq + 1)) (omega arith),
      )

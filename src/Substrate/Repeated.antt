-- ===== src/Substrate/Repeated.antt =====
-- Content that is already held, arriving at a new stream sequence.
use ghost_trace.Prelude.{
  ℕ, ◌+◌, ◌-◌, ◌≤◌, ◌<◌, ◌≡◌, ap, inl, inr, [], ◌∷◌, some, arith, ℕ_comparable, bytes_comparable,
}
use ghost_trace.Prelude.Int.{ℤ, sub_ℕ}
use ghost_trace.Prelude.Dict.{lookup}
use ghost_trace.Canonical.{Bytes}
use ghost_trace.Substrate.{Result, ok, StoredRow, Position, Db, Substrate, BatchRecord, Io}
use ghost_trace.Substrate.Batch.{
  position_upsert, Tally, empty_tally, cover, cover_rejected, tally_affected, stored_row,
  insert_records, transact, commit_batch, append_canonical_batch, write_all_oversized,
}
use ghost_trace.Substrate.Read.{unaccounted}
use ghost_trace.Substrate.Inversion.{
  settle-ok, transact-insert_records, insert_records-step, append_canonical_batch-cases,
}
use ghost_trace.Substrate.Loss.{unaccounted_lem}
use ghost_trace.Substrate.Redelivery.{insert_or_ignore-held}

-- The counts of a batch with one record that was held.
abbrev pub one_duplicate : ℕ → Tally
one_duplicate seq = record { committed = 0; duplicates = 1; first = seq; highest = seq }

cover_one : (seq : ℕ) → cover seq (tally_affected 0 empty_tally) ≡ one_duplicate seq
unfolding cover
cover_one seq = ground arith

upsert_next :
    (p : Position) (seq : ℕ)
    → seq ≡ p.highest_seq + 1
    → 0 < p.first_seq
    → p.first_seq ≤ p.highest_seq
    → position_upsert seq seq 0 0 1 (some p)
      ≡ record p { highest_seq = p.highest_seq + 1; duplicates = p.duplicates + 1 }
unfolding position_upsert
upsert_next p seq next placed order = ground arith

transact-repeated :
    (io : Io) (at_time : ℤ) (p : Position) (r : BatchRecord) (x : StoredRow) (db db' : Db)
    → transact io at_time (r ∷ []) [] db ≡ ok db'
    → db.position ≡ some p
    → lookup r.event_hash db.events ≡ some x
    → r.seq ≡ p.highest_seq + 1
    → 0 < p.first_seq
    → p.first_seq ≤ p.highest_seq
    → db'.position
      ≡ some (record p { highest_seq = p.highest_seq + 1; duplicates = p.duplicates + 1 })
unfolding cover_rejected insert_records stored_row
transact-repeated io at_time p r x db db' e known held next placed order =
    let (t, acc, covered, inserted, result) =
      transact-insert_records io at_time (r ∷ []) [] db db' e in
    let same = insert_or_ignore-held (stored_row at_time r) db.events x held in
    let step = rw same at (insert_records-step io at_time r [] db.events t acc inserted) in
    let start : t ≡ empty_tally = ground (arith, covered) in
    let tally : acc.1 ≡ one_duplicate r.seq = ground (arith, step, start, cover_one r.seq) in
    rw (result, known, tally) (ap some (upsert_next p r.seq next placed order))

module _ (hash : Bytes → Bytes) where
  -- When a batch of one record commits, whose content the table holds already and whose sequence
  -- is the one after the highest, and the numbers involved are below 2^62: before it the loss
  -- figure is the number of sequences walked less those counted as committed or rejected, and
  -- after it the figure is higher by one.
  pub unaccounted_repeated_content :
      (io : Io) (at_time : ℤ) (p : Position) (r : BatchRecord) (x : StoredRow) (s s' : Substrate)
      → append_canonical_batch hash io (r ∷ []) [] at_time s ≡ (s', ok tt)
      → s.db.position ≡ some p
      → lookup r.event_hash s.db.events ≡ some x
      → r.seq ≡ p.highest_seq + 1
      → 0 < p.first_seq
      → p.first_seq ≤ p.highest_seq
      → p.highest_seq + 1 < 4611686018427387904
      → p.committed < 4611686018427387904
      → p.rejected < 4611686018427387904
      → (q : Position) × (s'.db.position ≡ some q)
        × (unaccounted p ≡ sub_ℕ (p.highest_seq - p.first_seq + 1) (p.committed + p.rejected))
        × (unaccounted q ≡ sub_ℕ (p.highest_seq - p.first_seq + 2) (p.committed + p.rejected))
  unfolding commit_batch
  unaccounted_repeated_content io at_time p r x s s' e known held next placed order b c k =
      elim (append_canonical_batch-cases hash io (r ∷ []) [] at_time s) [
        | inl (no_recs, _, _) ↦ absurd (ground arith)
        | inr (inl (y, _, result)) ↦ absurd (ground arith)
        | inr (inr (_, _, result)) ↦
            let committed : commit_batch io (r ∷ []) [] at_time s ≡ (s', ok tt) = cc in
            let settled =
              settle-ok s (write_all_oversized io (r ∷ []) s.blobs)
                (transact io at_time (r ∷ []) []) tt
                (ap (λ (q : Substrate × Result (Unit {0})). q.1) committed) in
            let final : (commit_batch io (r ∷ []) [] at_time s).0 ≡ s' =
              ap (λ (q : Substrate × Result (Unit {0})). q.0) committed in
            let q : Position = record p {
              highest_seq = p.highest_seq + 1;
              duplicates = p.duplicates + 1;
            } in
            (
              q,
              transact-repeated io at_time p r x s.db s'.db (rw final at settled.1) known held next
                  placed order,
              unaccounted_lem p placed order (omega arith) c k,
              ground (arith, unaccounted_lem q placed (omega arith) b c k),
            )
      ]

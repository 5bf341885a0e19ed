-- ===== src/Consumer/Batches.antt =====
-- `HandleBatch`, on the fast path and through the slow one: every path that returns no error leaves
-- the good records in the archive, and accounts for what it can.
use ghost_trace.Prelude.{
  ℕ, ◌+◌, ◌≡◌, ◌⊎◌, refl, ap, ◌∙◌, inl, inr, List, [], ◌∷◌, ◌++◌, none, some, arith, length, ◌==◌,
  ℕ_comparable, bytes_comparable, Bool-cases, if◌then◌else◌,
}
use ghost_trace.Prelude.Int.{ℤ}
use ghost_trace.Prelude.Dict.{Keeps, Keeps-refl}
use ghost_trace.Canonical.{Bytes}
use ghost_trace.Substrate.{Error, Result, ok, err, BatchRecord, Io, Substrate, Result-cases}
use ghost_trace.Substrate.Batch.{append_canonical_batch}
use ghost_trace.Substrate.Accounting.{Accounts, append_canonical_batch-Accounts}
use ghost_trace.Substrate.Growth.{append_canonical_batch-Extends}
use ghost_trace.Consumer.{Consumer, RejectReason, add_rejected, Item, RejectNote, decode_hash}
use ghost_trace.Consumer.Handle.{
  is_hash_mismatch, classify, partition, count_unplaced, report_notes, report_records, report,
  Isolated, Archive, isolate_each, account_poisoned, finish_isolate, isolate, handle_batch,
}
use ghost_trace.Consumer.Isolation.{is_hash_mismatch_iff}

-- The deliveries of a batch that the broker gave a sequence, and those that it did not.
abbrev pub placed : List Item → ℕ
placed [] = 0
placed (it ∷ its) = (if it.sequence == 0 then 0 else 1) + placed its

abbrev pub unplaced_count : List Item → ℕ
unplaced_count [] = 0
unplaced_count (it ∷ its) = (if it.sequence == 0 then 1 else 0) + unplaced_count its

-- The placed deliveries whose identity is not a hash.
abbrev pub malformed_count : List Item → ℕ
malformed_count [] = 0
malformed_count (it ∷ its) =
    (if it.sequence == 0
      then 0
      else elim (decode_hash it.archive_record.event_hash) [ none ↦ 1 | some _ ↦ 0 ])
    + malformed_count its

pub partition-counts :
    (batch : List Item)
    → (length (partition batch).recs + length (partition batch).rejected ≡ placed batch)
      × (length (partition batch).rejected ≡ malformed_count batch)
      × (length (partition batch).notes ≡ malformed_count batch)
unfolding partition classify
partition-counts [] = omega arith
partition-counts (it ∷ its) = ground (arith, partition-counts its)

pub count_unplaced-counts :
    (batch : List Item) (c : Consumer)
    → ((count_unplaced batch c).rejected ≡ c.rejected + unplaced_count batch)
      × ((count_unplaced batch c).committed ≡ c.committed)
unfolding count_unplaced classify
count_unplaced-counts [] c = omega arith
count_unplaced-counts (it ∷ its) c = ground (
  arith,
  count_unplaced-counts its c,
  count_unplaced-counts its (add_rejected RejectReason.no_sequence c),
)

report_notes-counts :
    (notes : List RejectNote) (c : Consumer)
    → ((report_notes notes c).rejected ≡ c.rejected + length notes)
      × ((report_notes notes c).committed ≡ c.committed)
unfolding report_notes
report_notes-counts [] c = omega arith
report_notes-counts (n ∷ ns) c = let ih = report_notes-counts ns _ in (omega (arith, ih.0), ih.1)

report_records-counts :
    (recs : List BatchRecord) (c : Consumer)
    → ((report_records recs c).committed ≡ c.committed + length recs)
      × ((report_records recs c).rejected ≡ c.rejected)
unfolding report_records
report_records-counts [] c = omega arith
report_records-counts (r ∷ rs) c =
    let ih = report_records-counts rs _ in (omega (arith, ih.0), ih.1)

pub report-counts :
    (recs : List BatchRecord) (notes : List RejectNote) (c : Consumer)
    → ((report recs notes c).committed ≡ c.committed + length recs)
      × ((report recs notes c).rejected ≡ c.rejected + length notes)
unfolding report
report-counts recs notes c =
    let r = report_records-counts recs (report_notes notes c) in
    let n = report_notes-counts notes c in (omega (arith, r.0, n.1), omega (arith, r.1, n.0))

finish_isolate-ok :
    (notes : List RejectNote) (i : Isolated) (c : Consumer) (w : Substrate × Result (Unit {0}))
    (a' : Archive)
    → finish_isolate notes i c w ≡ (a', ok tt)
    → (w ≡ (a'.store, ok tt)) × (a'.consumer ≡ report i.committed (notes ++ i.notes) c)
finish_isolate-ok notes i c (s, ok u) a' e = ground arith
finish_isolate-ok notes i c (s, err x) a' e = absurd (ground arith)

module _ (hash : Bytes → Bytes) where
  pub isolate-ok :
      (ios : ℕ → Io) (io : Io) (at_time : ℤ) (recs : List BatchRecord) (notes : List RejectNote)
      (a a' : Archive)
      → isolate hash ios io at_time recs notes a ≡ (a', ok tt)
      → (i : Isolated) × (middle : Substrate) × (isolate_each hash ios at_time recs a.store
          ≡ (middle, ok i))
        × (account_poisoned hash io i.poisoned at_time middle ≡ (a'.store, ok tt))
        × (a'.consumer ≡ report i.committed (notes ++ i.notes) a.consumer)
  unfolding isolate
  isolate-ok ios io at_time recs notes a a' e =
      elim (Result-cases (isolate_each hash ios at_time recs a.store).1) [
        | inr (x, failed) ↦ absurd (ground arith)
        | inl (i, each) ↦
            let middle = (isolate_each hash ios at_time recs a.store).0 in
            let finished =
              finish_isolate-ok notes i a.consumer
                (account_poisoned hash io i.poisoned at_time middle) a' (rw (each, isolate) at e) in
            (i, middle, ap (λ (q : Result Isolated). (middle, q)) each, finished.0, finished.1)
      ]

  pub account_poisoned-Accounts :
      (io : Io) (poisoned : List ℕ) (at_time : ℤ) (s s' : Substrate)
      → account_poisoned hash io poisoned at_time s ≡ (s', ok tt)
      → Accounts s.db s'.db [] poisoned × Keeps s.db.events s'.db.events
  unfolding account_poisoned
  account_poisoned-Accounts io [] at_time s s' e =
      let same : s ≡ s' = ground arith in
      rw (← same) (
        record {
          new_rows = refl;
          delivered = omega arith;
          refused = omega arith;
          walked_records = tt;
          walked_rejected = tt;
          walked_before = λ seq w. w;
        },
        Keeps-refl s.db.events,
      )
  account_poisoned-Accounts io (seq ∷ seqs) at_time s s' e =
      let final : (append_canonical_batch hash io [] (seq ∷ seqs) at_time s).0 ≡ s' =
        ap (λ (q : Substrate × Result (Unit {0})). q.0) e in
      let done : (append_canonical_batch hash io [] (seq ∷ seqs) at_time s).1 ≡ ok tt =
        ap (λ (q : Substrate × Result (Unit {0})). q.1) e in
      (
        rw final at (append_canonical_batch-Accounts hash io [] (seq ∷ seqs) at_time s done),
        rw final at (append_canonical_batch-Extends hash io [] (seq ∷ seqs) at_time s).rows,
      )

  -- The two ways to a result without an error.
  pub handle_batch-ok :
      (io : Io) (ios : ℕ → Io) (last_io : Io) (at_time : ℤ) (batch : List Item) (a a' : Archive)
      → handle_batch hash io ios last_io at_time batch a ≡ (a', ok tt)
      → let p = partition batch in
        let c = count_unplaced batch a.consumer in
        let all = append_canonical_batch hash io p.recs p.rejected at_time a.store in
        ((all ≡ (a'.store, ok tt)) × (a'.consumer ≡ report p.recs p.notes c))
        ⊎ ((all.1 ≡ err Error.hash_mismatch)
            × (isolate hash ios last_io at_time p.recs p.notes
                  (record { consumer = c; store = all.0 })
                ≡ (a', ok tt)))
  unfolding handle_batch
  handle_batch-ok io ios last_io at_time batch a a' e =
      let p = partition batch in
      let all = append_canonical_batch hash io p.recs p.rejected at_time a.store in
      elim (Result-cases all.1) [
        | inl (_, done) ↦ inl (ground arith, ground arith)
        | inr (x, failed) ↦ elim (Bool-cases (is_hash_mismatch x)) [
          | inl mismatch ↦ inr (failed ∙ ap err (is_hash_mismatch_iff x mismatch), ground arith)
          | inr other ↦ absurd (ground arith)
        ]
      ]

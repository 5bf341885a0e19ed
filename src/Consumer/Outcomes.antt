-- ===== src/Consumer/Outcomes.antt =====
-- What `HandleBatch` promises when it returns no error, so that the messages are acknowledged.
use ghost_trace.Prelude.{
  ℕ, ◌+◌, ◌≡◌, ◌≢◌, ap, sym, ◌∙◌, inl, inr, List, [], ◌∷◌, ◌++◌, some, arith, All, All-map,
  length-append, ◌==◌, ℕ_comparable, bytes_comparable, Bool-cases, Option-cases,
}
use ghost_trace.Prelude.Int.{ℤ}
use ghost_trace.Prelude.Dict.{Dict, lookup, Keeps}
use ghost_trace.Canonical.{Bytes}
use ghost_trace.Substrate.{Error, Result, ok, err, BatchRecord, StoredRow, Io, Substrate}
use ghost_trace.Substrate.Batch.{append_canonical_batch}
use ghost_trace.Substrate.Accounting.{
  committed_total, duplicates_total, rejected_total, Accounts, append_canonical_batch-Accounts,
}
use ghost_trace.Substrate.Growth.{Holds}
use ghost_trace.Substrate.Durability.{append_canonical_batch-Holds}
use ghost_trace.Substrate.Transactions.{append_canonical_batch-err}
use ghost_trace.Consumer.{Item, decode_hash}
use ghost_trace.Consumer.Handle.{
  classify, partition, count_unplaced, Archive, handle_batch, to_batch_record,
}
use ghost_trace.Consumer.Isolation.{Effect, isolate_each-Effect}
use ghost_trace.Consumer.Batches.{
  placed, unplaced_count, malformed_count, partition-counts, count_unplaced-counts, report-counts,
  isolate-ok, account_poisoned-Accounts, handle_batch-ok,
}

module _ (hash : Bytes → Bytes) where
  abbrev IsDurable : Dict Bytes StoredRow → BatchRecord → Type 0
  IsDurable events r = hash r.payload ≡ r.event_hash → Holds events r

  IsDurable-Keeps :
      (old new : Dict Bytes StoredRow) (recs : List BatchRecord)
      → Keeps old new
      → All (IsDurable old) recs
      → All (IsDurable new) recs
  IsDurable-Keeps old new recs k =
      All-map (IsDurable old) (IsDurable new) recs
        (λ r d same. ((d same).0, k r.event_hash (d same).0 (d same).1))

  handle_batch-recs :
      (io : Io) (ios : ℕ → Io) (last_io : Io) (at_time : ℤ) (batch : List Item) (a a' : Archive)
      → handle_batch hash io ios last_io at_time batch a ≡ (a', ok tt)
      → All (IsDurable a'.store.db.events) (partition batch).recs
  handle_batch-recs io ios last_io at_time batch a a' e =
      elim (handle_batch-ok hash io ios last_io at_time batch a a' e) [
        | inl (done, _) ↦
            All-map (Holds a'.store.db.events) _ _ (λ r held _. held)
              (append_canonical_batch-Holds hash io (partition batch).recs
                (partition batch).rejected at_time a.store a'.store done)
        | inr (_, isolated) ↦
            let (i, middle, each, accounted, _) =
              isolate-ok hash ios last_io at_time (partition batch).recs (partition batch).notes _
                a' isolated in
            IsDurable-Keeps middle.db.events a'.store.db.events (partition batch).recs
              (account_poisoned-Accounts hash last_io i.poisoned at_time middle a'.store
                accounted).1
              (isolate_each-Effect hash ios at_time (partition batch).recs _ middle i each).durable
      ]

  -- The archive holds a delivery that has a position, an identity of 32 bytes and the bytes for it.
  abbrev pub ItemIsDurable : Dict Bytes StoredRow → Item → Type 0
  ItemIsDurable events it =
      (h : Bytes)
      → it.sequence ≢ 0
      → decode_hash it.archive_record.event_hash ≡ some h
      → hash it.archive_record.canonical_payload ≡ h
      → (x : StoredRow) × (lookup h events ≡ some x)

  partition-ItemIsDurable :
      (events : Dict Bytes StoredRow) (batch : List Item)
      → All (IsDurable events) (partition batch).recs
      → All (ItemIsDurable events) batch
  unfolding partition classify
  partition-ItemIsDurable events [] d = tt
  partition-ItemIsDurable events (it ∷ its) d = elim (Bool-cases (it.sequence == 0)) [
    | inl unset ↦ (
      λ h set. absurd (ground arith),
      partition-ItemIsDurable events its (rw (unset, partition) at d),
    )
    | inr set ↦ elim (Option-cases (decode_hash it.archive_record.event_hash)) [
      | inl bad ↦ (
        λ h _ good. absurd (ground arith),
        partition-ItemIsDurable events its (rw (set, bad, partition) at d),
      )
      | inr (k, good) ↦
          let d' : IsDurable events (to_batch_record it k)
              × All (IsDurable events) (partition its).recs =
            rw (set, good, partition) at d in
          (
            λ h _ same named. let key : k ≡ h = ground arith in rw (← key) (d'.0 (named ∙ sym key)),
            partition-ItemIsDurable events its d'.1,
          )
    ]
  ]

  -- When HandleBatch returns no error, by the fast path or the slow one, every delivery of the batch
  -- with a sequence, a hash of 32 bytes and bytes that have that hash is a row of the archive.
  pub handle_batch-ItemIsDurable :
      (io : Io) (ios : ℕ → Io) (last_io : Io) (at_time : ℤ) (batch : List Item) (a a' : Archive)
      → handle_batch hash io ios last_io at_time batch a ≡ (a', ok tt)
      → All (ItemIsDurable a'.store.db.events) batch
  handle_batch-ItemIsDurable io ios last_io at_time batch a a' e =
      partition-ItemIsDurable a'.store.db.events batch
        (handle_batch-recs io ios last_io at_time batch a a' e)

  -- When the whole batch commits at once, every delivery with a sequence is accounted for in the
  -- position, as a commit, a duplicate or a rejection, each exactly once; the rejections are those
  -- whose identity is not a hash. The process counts these and the deliveries without a sequence
  -- as rejected, and the others as committed.
  pub handle_batch-accounted :
      (io : Io) (ios : ℕ → Io) (last_io : Io) (at_time : ℤ) (batch : List Item) (a a' : Archive)
      → handle_batch hash io ios last_io at_time batch a ≡ (a', ok tt)
      → (append_canonical_batch hash io
          (partition batch).recs
          (partition batch).rejected
          at_time
          a.store).1
        ≡ ok tt
      → let before = a.store.db.position in
        let after = a'.store.db.position in
        (committed_total after + duplicates_total after + rejected_total after
          ≡ committed_total before + duplicates_total before + rejected_total before + placed batch)
        × (rejected_total after ≡ rejected_total before + malformed_count batch)
        × (a'.consumer.rejected
            ≡ a.consumer.rejected + unplaced_count batch + malformed_count batch)
        × (a'.consumer.committed + malformed_count batch ≡ a.consumer.committed + placed batch)
  handle_batch-accounted io ios last_io at_time batch a a' e first =
      elim (handle_batch-ok hash io ios last_io at_time batch a a' e) [
        | inr (failed, _) ↦ absurd (ground arith)
        | inl (done, counted) ↦
            let final : (append_canonical_batch hash io (partition batch).recs
                  (partition batch).rejected at_time a.store).0
                ≡ a'.store =
              ap (λ (q : Substrate × Result (Unit {0})). q.0) done in
            let acc : Accounts a.store.db a'.store.db (partition batch).recs
                (partition batch).rejected =
              rw final at (
                append_canonical_batch-Accounts hash io (partition batch).recs
                  (partition batch).rejected at_time a.store first) in
            let parts = partition-counts batch in
            let unset = count_unplaced-counts batch a.consumer in
            let reported =
              report-counts (partition batch).recs (partition batch).notes
                (count_unplaced batch a.consumer) in
            rw counted (omega (arith, acc.delivered, acc.refused, parts, unset, reported))
      ]

  -- When the batch is re-driven because some bytes do not match, and no error is returned, the
  -- deliveries whose identity is not a hash are missing from the position: commits, duplicates and
  -- rejections together grow by the deliveries with a sequence less those, although the process
  -- counts each of those as rejected.
  pub handle_batch-isolated_loss :
      (io : Io) (ios : ℕ → Io) (last_io : Io) (at_time : ℤ) (batch : List Item) (a a' : Archive)
      → handle_batch hash io ios last_io at_time batch a ≡ (a', ok tt)
      → (append_canonical_batch hash io
          (partition batch).recs
          (partition batch).rejected
          at_time
          a.store).1
        ≡ err Error.hash_mismatch
      → let before = a.store.db.position in
        let after = a'.store.db.position in
        (committed_total after
            + duplicates_total after
            + rejected_total after
            + malformed_count batch
          ≡ committed_total before + duplicates_total before + rejected_total before + placed batch)
        × (a'.consumer.rejected + rejected_total before
            ≡ a.consumer.rejected
              + unplaced_count batch
              + malformed_count batch
              + rejected_total after)
  handle_batch-isolated_loss io ios last_io at_time batch a a' e first =
      elim (handle_batch-ok hash io ios last_io at_time batch a a' e) [
        | inl (done, _) ↦ absurd (ground arith)
        | inr (_, isolated) ↦
            let unchanged =
              append_canonical_batch-err hash io (partition batch).recs (partition batch).rejected
                at_time a.store Error.hash_mismatch first in
            let (i, middle, each, accounted, counted) =
              isolate-ok hash ios last_io at_time (partition batch).recs (partition batch).notes _
                a' isolated in
            let effect =
              isolate_each-Effect hash ios at_time (partition batch).recs _ middle i each in
            let acc =
              (account_poisoned-Accounts hash last_io i.poisoned at_time middle a'.store
                accounted).0 in
            let parts = partition-counts batch in
            let unset = count_unplaced-counts batch a.consumer in
            let reported =
              report-counts i.committed ((partition batch).notes ++ i.notes)
                (count_unplaced batch a.consumer) in
            let noted = length-append (partition batch).notes i.notes in
            let effect' : Effect hash a.store.db middle.db (partition batch).recs i =
              rw unchanged at effect in
            rw counted (
              omega (
                arith, acc.delivered, acc.refused, effect'.refused, effect'.delivered,
                effect'.split, effect'.noted, parts, unset, reported, noted,
              ))
      ]

-- ===== src/Consumer/Keeping.antt =====
-- No call of the consumer takes a row from the store, whatever it returns.
use ghost_trace.Prelude.{
  ℕ, ◌≡◌, inl, inr, refl, List, [], ◌∷◌, length, ◌==◌, ℕ_comparable, bytes_comparable, Bool-cases,
}
use ghost_trace.Prelude.Int.{ℤ}
use ghost_trace.Prelude.Dict.{Keeps, Keeps-refl, Keeps-trans}
use ghost_trace.Canonical.{Bytes}
use ghost_trace.Substrate.{Result-cases, Result, ok, err, BatchRecord, Io, Substrate}
use ghost_trace.Substrate.Batch.{append_canonical_batch}
use ghost_trace.Substrate.Growth.{append_canonical_batch-Extends, record_rejected-rows}
use ghost_trace.Consumer.{RejectNote, Consumer, Item}
use ghost_trace.Consumer.Handle.{
  is_hash_mismatch, isolate_step, Isolated, isolate_each, account_poisoned, finish_isolate, isolate,
  handle_batch, undecodable, partition, count_unplaced, Archive,
}

-- Every row of one store is a row of the other.
abbrev pub RowsKept : Substrate → Substrate → Type 0
RowsKept s t = Keeps s.db.events t.db.events

RowsKept-trans : (r s t : Substrate) → RowsKept r s → RowsKept s t → RowsKept r t
RowsKept-trans r s t = Keeps-trans r.db.events s.db.events t.db.events

isolate_step-RowsKept :
    (r : BatchRecord) (s : Substrate) (one : Substrate × Result (Unit {0}))
    (rest : Substrate × Result Isolated)
    → RowsKept s one.0
    → RowsKept one.0 rest.0
    → RowsKept s (isolate_step r one rest).0
unfolding isolate_step
isolate_step-RowsKept r s (t, ok _) (u, rest) one two = RowsKept-trans s t u one two
isolate_step-RowsKept r s (t, err e) (u, rest) one two = elim (Bool-cases (is_hash_mismatch e)) [
  | inl mismatch ↦ rw mismatch (RowsKept-trans s t u one two)
  | inr other ↦ rw other one
]

module _ (hash : Bytes → Bytes) where
  isolate_each-RowsKept :
      (ios : ℕ → Io) (at_time : ℤ) (recs : List BatchRecord) (s : Substrate)
      → RowsKept s (isolate_each hash ios at_time recs s).0
  unfolding isolate_each
  isolate_each-RowsKept ios at_time [] s = Keeps-refl s.db.events
  isolate_each-RowsKept ios at_time (r ∷ rs) s =
      let one = append_canonical_batch hash (ios (length rs)) (r ∷ []) [] at_time s in
      isolate_step-RowsKept r s one (isolate_each hash ios at_time rs one.0)
        (append_canonical_batch-Extends hash (ios (length rs)) (r ∷ []) [] at_time s).rows
        (isolate_each-RowsKept ios at_time rs one.0)

  account_poisoned-RowsKept :
      (io : Io) (poisoned : List ℕ) (at_time : ℤ) (s : Substrate)
      → RowsKept s (account_poisoned hash io poisoned at_time s).0
  unfolding account_poisoned
  account_poisoned-RowsKept io [] at_time s = Keeps-refl s.db.events
  account_poisoned-RowsKept io (n ∷ ns) at_time s =
      (append_canonical_batch-Extends hash io [] (n ∷ ns) at_time s).rows

  finish_isolate-store :
      (notes : List RejectNote) (i : Isolated) (c : Consumer) (last : Substrate × Result (Unit {0}))
      → (finish_isolate notes i c last).0.store ≡ last.0
  finish_isolate-store notes i c (s, ok u) = refl
  finish_isolate-store notes i c (s, err e) = refl

  isolate-RowsKept :
      (ios : ℕ → Io) (io : Io) (at_time : ℤ) (recs : List BatchRecord) (notes : List RejectNote)
      (a : Archive)
      → RowsKept a.store (isolate hash ios io at_time recs notes a).0.store
  unfolding isolate
  isolate-RowsKept ios io at_time recs notes a =
      let each = isolate_each hash ios at_time recs a.store in
      let kept = isolate_each-RowsKept ios at_time recs a.store in
      elim (Result-cases each.1) [
        | inr (x, failed) ↦ rw (failed, isolate) kept
        | inl (i, done) ↦
            let last = account_poisoned hash io i.poisoned at_time each.0 in
            rw (done, isolate, finish_isolate-store notes i a.consumer last)
              (RowsKept-trans a.store each.0 last.0 kept
                (account_poisoned-RowsKept io i.poisoned at_time each.0))
      ]

  pub handle_batch-RowsKept :
      (io : Io) (ios : ℕ → Io) (last_io : Io) (at_time : ℤ) (batch : List Item) (a : Archive)
      → RowsKept a.store (handle_batch hash io ios last_io at_time batch a).0.store
  unfolding handle_batch
  handle_batch-RowsKept io ios last_io at_time batch a =
      let p = partition batch in
      let c = count_unplaced batch a.consumer in
      let all = append_canonical_batch hash io p.recs p.rejected at_time a.store in
      let between : Archive = record { consumer = c; store = all.0 } in
      let kept = (append_canonical_batch-Extends hash io p.recs p.rejected at_time a.store).rows in
      elim (Result-cases all.1) [
        | inl (u, done) ↦ rw (done, handle_batch) kept
        | inr (e, failed) ↦ elim (Bool-cases (is_hash_mismatch e)) [
          | inr other ↦ rw (failed, handle_batch, other) kept
          | inl mismatch ↦
              rw (failed, handle_batch, mismatch)
                (RowsKept-trans a.store all.0
                  (isolate hash ios last_io at_time p.recs p.notes between).0.store kept
                  (isolate-RowsKept ios last_io at_time p.recs p.notes between))
        ]
      ]

pub undecodable-RowsKept :
    (io : Io) (n : ℕ) (a : Archive) → RowsKept a.store (undecodable io n a).store
unfolding undecodable
undecodable-RowsKept io n a = elim (Bool-cases (n == 0)) [
  | inl unset ↦ rw unset (Keeps-refl a.store.db.events)
  | inr set ↦
      rw (set, undecodable, (record_rejected-rows io n a.store).0) (Keeps-refl a.store.db.events)
]

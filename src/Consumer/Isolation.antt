-- ===== src/Consumer/Isolation.antt =====
-- The slow path: what re-driving a batch one record at a time leaves in the archive.
use ghost_trace.Prelude.{
  ℕ, ◌+◌, ◌≡◌, ◌≢◌, refl, ap, ◌⊎◌, inl, inr, true, List, [], ◌∷◌, arith, All, length, ℕ_comparable,
  bytes_comparable, Bool-cases,
}
use ghost_trace.Prelude.Int.{ℤ}
use ghost_trace.Prelude.Dict.{Dict, Keeps, Keeps-refl, Keeps-trans}
use ghost_trace.Canonical.{Bytes}
use ghost_trace.Substrate.{Error, Result, ok, err, BatchRecord, StoredRow, Db, Io, Substrate}
use ghost_trace.Substrate.Batch.{append_canonical_batch}
use ghost_trace.Substrate.Accounting.{
  committed_total, duplicates_total, rejected_total, Accounts, append_canonical_batch-Accounts,
}
use ghost_trace.Substrate.Growth.{Holds, append_canonical_batch-Extends}
use ghost_trace.Substrate.Durability.{append_canonical_batch-Holds}
use ghost_trace.Substrate.Transactions.{append_canonical_batch-err}
use ghost_trace.Substrate.Mismatch.{mismatch_of_one}
use ghost_trace.Consumer.{RejectReason, RejectNote}
use ghost_trace.Consumer.Handle.{is_hash_mismatch, isolate_step, Isolated, isolate_each}

pub is_hash_mismatch_iff : (e : Error) → is_hash_mismatch e ≡ true → e ≡ Error.hash_mismatch
is_hash_mismatch_iff e h = ground arith

-- How the loop goes on after a record, if it comes to a result.
isolate_step-ok :
    (r : BatchRecord) (one : Substrate × Result (Unit {0})) (rest : Substrate × Result Isolated)
    (s' : Substrate) (i : Isolated)
    → isolate_step r one rest ≡ (s', ok i)
    → (i' : Isolated) × (rest ≡ (s', ok i'))
      × (((one.1 ≡ ok tt) × (i ≡ record i' { committed = r ∷ i'.committed }))
          ⊎ ((one.1 ≡ err Error.hash_mismatch)
              × (i ≡ record i' {
                poisoned = r.seq ∷ i'.poisoned;
                notes = record { seq = r.seq; reason = RejectReason.hash_mismatch } ∷ i'.notes;
              })))
unfolding isolate_step
isolate_step-ok r (s, ok u) (s2, ok i') s' i e = (i', ground arith, inl (refl, ground arith))
isolate_step-ok r (s, ok u) (s2, err x) s' i e = absurd (ground arith)
isolate_step-ok r (s, err y) (s2, ok i') s' i e = elim (Bool-cases (is_hash_mismatch y)) [
  | inl mismatch ↦ (i', ground arith, inr (ap err (is_hash_mismatch_iff y mismatch), ground arith))
  | inr other ↦ absurd (ground arith)
]
isolate_step-ok r (s, err y) (s2, err x) s' i e = absurd (ground arith)

module _ (hash : Bytes → Bytes) where
  -- What the one-at-a-time commits come to, when none of them failed for another reason.
  pub record Effect (before after : Db) (recs : List BatchRecord) (i : Isolated) : Type 0 where
    pub durable : All (λ r. hash r.payload ≡ r.event_hash → Holds after.events r) recs
    pub refused : rejected_total after.position ≡ rejected_total before.position
    pub delivered :
        committed_total after.position + duplicates_total after.position
        ≡ committed_total before.position + duplicates_total before.position + length i.committed
    pub split : length i.committed + length i.poisoned ≡ length recs
    pub noted : length i.notes ≡ length i.poisoned
    pub rows : Keeps before.events after.events

  Holds-Keeps :
      (old new : Dict Bytes StoredRow) (r : BatchRecord) → Keeps old new → Holds old r → Holds new r
  Holds-Keeps old new r k (x, there) = (x, k r.event_hash x there)

  kept-Effect :
      (before middle after : Db) (r : BatchRecord) (rs : List BatchRecord) (i : Isolated)
      → Accounts before middle (r ∷ []) []
      → Holds middle.events r
      → Keeps before.events middle.events
      → Effect middle after rs i
      → Effect before after (r ∷ rs) (record i { committed = r ∷ i.committed })
  kept-Effect before middle after r rs i a held k f = record {
    durable = (λ _. Holds-Keeps middle.events after.events r f.rows held, f.durable);
    refused = omega (arith, a.refused, f.refused);
    delivered = omega (arith, a.delivered, f.delivered);
    split = omega (arith, f.split);
    noted = f.noted;
    rows = Keeps-trans before.events middle.events after.events k f.rows;
  }

  poisoned-Effect :
      (before after : Db) (r : BatchRecord) (rs : List BatchRecord) (i : Isolated) (n : RejectNote)
      → hash r.payload ≢ r.event_hash
      → Effect before after rs i
      → Effect before after
          (r ∷ rs)
          (record i { poisoned = r.seq ∷ i.poisoned; notes = n ∷ i.notes })
  poisoned-Effect before after r rs i n differs f = record {
    durable = (λ same. absurd (differs same), f.durable);
    refused = f.refused;
    delivered = f.delivered;
    split = omega (arith, f.split);
    noted = omega (arith, f.noted);
    rows = f.rows;
  }

  pub isolate_each-Effect :
      (ios : ℕ → Io) (at_time : ℤ) (recs : List BatchRecord) (s s' : Substrate) (i : Isolated)
      → isolate_each hash ios at_time recs s ≡ (s', ok i)
      → Effect s.db s'.db recs i
  unfolding isolate_each
  isolate_each-Effect ios at_time [] s s' i e =
      let same : s ≡ s' = ground arith in
      let nothing : record { committed = []; poisoned = []; notes = [] } ≡ i = ground arith in
      rw (← same, ← nothing)
        (record {
          durable = tt;
          refused = refl;
          delivered = omega arith;
          split = omega arith;
          noted = omega arith;
          rows = Keeps-refl s.db.events;
        })
  isolate_each-Effect ios at_time (r ∷ rs) s s' i e =
      let one = append_canonical_batch hash (ios (length rs)) (r ∷ []) [] at_time s in
      let (i', rest, went) =
        isolate_step-ok r one (isolate_each hash ios at_time rs one.0) s' i e in
      let ih = isolate_each-Effect ios at_time rs one.0 s' i' rest in
      elim went [
        | inl (done, result) ↦ rw result (
            kept-Effect s.db one.0.db s'.db r rs i'
              (append_canonical_batch-Accounts hash (ios (length rs)) (r ∷ []) [] at_time s done)
              (append_canonical_batch-Holds hash (ios (length rs)) (r ∷ []) [] at_time s one.0
                (ap (λ (q : Result (Unit {0})). (one.0, q)) done)).0
              (append_canonical_batch-Extends hash (ios (length rs)) (r ∷ []) [] at_time s).rows ih)
        | inr (mismatch, result) ↦
            let unchanged =
              append_canonical_batch-err hash (ios (length rs)) (r ∷ []) [] at_time s
                Error.hash_mismatch mismatch in
            rw result (
              poisoned-Effect s.db s'.db r rs i' _
                (mismatch_of_one hash (ios (length rs)) r at_time s mismatch) (rw unchanged at ih))
      ]

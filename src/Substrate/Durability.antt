-- ===== src/Substrate/Durability.antt =====
-- Durable: what a batch must leave behind when it reports success.
use ghost_trace.Prelude.{
  ℕ, ◌≡◌, ap, inl, inr, true, List, arith, All, All-map, ℕ_comparable, bytes_comparable,
}
use ghost_trace.Prelude.Int.{ℤ}
use ghost_trace.Canonical.{Bytes}
use ghost_trace.Substrate.{Result, ok, Substrate, BatchRecord, Io}
use ghost_trace.Substrate.Batch.{
  transact, commit_batch, append_canonical_batch, write_all_oversized,
}
use ghost_trace.Substrate.Read.{lookup_row, read_blob}
use ghost_trace.Substrate.Inversion.{settle-ok, append_canonical_batch-cases}
use ghost_trace.Substrate.Soundness.{IsSound, append_canonical_batch-IsSound}
use ghost_trace.Substrate.History.{read_blob-lookup_row}
use ghost_trace.Substrate.Growth.{Holds, transact-rows}

module _ (hash : Bytes → Bytes) where
  pub append_canonical_batch-Holds :
      (io : Io) (recs : List BatchRecord) (rejected : List ℕ) (at_time : ℤ) (s s' : Substrate)
      → append_canonical_batch hash io recs rejected at_time s ≡ (s', ok tt)
      → All (Holds s'.db.events) recs
  unfolding commit_batch
  append_canonical_batch-Holds io recs rejected at_time s s' e =
      elim (append_canonical_batch-cases hash io recs rejected at_time s) [
        | inl (empty, _, _) ↦ rw empty tt
        | inr (inl (x, _, result)) ↦ absurd (ground arith)
        | inr (inr (_, _, result)) ↦
            let committed : commit_batch io recs rejected at_time s ≡ (s', ok tt) = cc in
            let settled =
              settle-ok s (write_all_oversized io recs s.blobs) (transact io at_time recs rejected)
                tt (ap (λ (p : Substrate × Result (Unit {0})). p.1) committed) in
            let final : (commit_batch io recs rejected at_time s).0 ≡ s' =
              ap (λ (p : Substrate × Result (Unit {0})). p.0) committed in
            (transact-rows hash io at_time recs rejected s.db s'.db (rw final at settled.1)).1
      ]

  -- When AppendCanonicalBatch returns no error on a sound archive, ReadBlob then answers for the
  -- name of every record of the batch, with bytes that hash to that name.
  pub append_canonical_batch-read_blob :
      (io : Io) (recs : List BatchRecord) (rejected : List ℕ) (at_time : ℤ) (s s' : Substrate)
      → IsSound hash s
      → append_canonical_batch hash io recs rejected at_time s ≡ (s', ok tt)
      → All
          (λ r.
            (payload : Bytes) × (read_blob hash true r.event_hash s' ≡ ok payload)
            × (hash payload ≡ r.event_hash))
          recs
  unfolding lookup_row
  append_canonical_batch-read_blob io recs rejected at_time s s' sound e =
      let kept_sound : IsSound hash s' =
        rw (ap (λ (p : Substrate × Result (Unit {0})). p.0) e) at
          (append_canonical_batch-IsSound hash io recs rejected at_time s sound) in
      All-map (Holds s'.db.events) _ recs
        (λ r held.
          read_blob-lookup_row hash r.event_hash s' held.0.row kept_sound (rw (held.1, lookup_row)))
        (append_canonical_batch-Holds io recs rejected at_time s s' e)

-- ===== src/Substrate/Transactions.antt =====
-- All or nothing: a write that fails leaves the tables as they were, and every write extends what was
-- there.
use mathlib.Core.Path.{subst}
use ghost_trace.Prelude.{
  ℕ, ◌≡◌, refl, sym, inl, inr, List, [], ◌∷◌, arith, ◌==◌, ℕ_comparable, bytes_comparable,
  Bool-cases,
}
use ghost_trace.Prelude.Int.{ℤ}
use ghost_trace.Prelude.Dict.{Keeps, Keeps-refl, Keeps-trans}
use ghost_trace.Canonical.{Bytes}
use ghost_trace.Substrate.{err, Error, EventRow, StoredRow, Substrate, BatchRecord, Io}
use ghost_trace.Substrate.Append.{
  is_inline, inlined_or_nil, insert_or_ignore, kept, write_oversized, insert_one, append,
  append_canonical,
}
use ghost_trace.Substrate.Batch.{
  stored_row, transact, commit_batch, append_canonical_batch, write_all_oversized, transact_at,
  append_canonical_at, record_rejected,
}
use ghost_trace.Substrate.Inversion.{settle-err, append_canonical_batch-cases}
use ghost_trace.Substrate.WriteOnce.{kept-Keeps}
use ghost_trace.Substrate.History.{
  Write, write, run, appends, appends_canonical, appends_batch, appends_at, rejects,
}
use ghost_trace.Substrate.Growth.{
  Extends, insert_or_ignore-Keeps, settle-Extends, Extends-refl, record_rejected-rows,
  append_canonical_batch-Extends,
}

module _ (hash : Bytes → Bytes) where
  pub append_canonical_batch-err :
      (io : Io) (recs : List BatchRecord) (rejected : List ℕ) (at_time : ℤ) (s : Substrate)
      (x : Error)
      → (append_canonical_batch hash io recs rejected at_time s).1 ≡ err x
      → (append_canonical_batch hash io recs rejected at_time s).0.db ≡ s.db
  unfolding commit_batch
  append_canonical_batch-err io recs rejected at_time s x e =
      elim (append_canonical_batch-cases hash io recs rejected at_time s) [
        | inl (_, _, result) ↦ rw result refl
        | inr (inl (y, _, result)) ↦ rw result refl
        | inr (inr (_, _, result)) ↦ rw result (
            settle-err s (write_all_oversized io recs s.blobs) (transact io at_time recs rejected) x
              (rw result at e))
      ]

  append-err :
      (io : Io) (row : EventRow) (payload : Bytes) (s : Substrate) (x : Error)
      → (append hash io row payload s).1 ≡ err x
      → (append hash io row payload s).0.db ≡ s.db
  unfolding append
  append-err io row payload s x e = elim (Bool-cases (row.event_hash == hash payload)) [
    | inr other ↦ rw (other, append)
    | inl same ↦
        rw (same, append)
          (settle-err s (kept s.blobs (write_oversized io 0 row.event_hash payload s.blobs))
            (insert_one io row payload) x (rw (same, append) at e))
  ]

  append-Extends :
      (io : Io) (row : EventRow) (payload : Bytes) (s : Substrate)
      → Extends s (append hash io row payload s).0
  unfolding append insert_one
  append-Extends io row payload s = elim (Bool-cases (row.event_hash == hash payload)) [
    | inr other ↦ rw (other, append) (Extends-refl s)
    | inl same ↦
        rw (same, append)
          (settle-Extends s _ (insert_one io row payload)
            (kept-Keeps io 0 row.event_hash payload s.blobs)
            (λ db' done.
              let r : StoredRow = record {
                row = row;
                payload = inlined_or_nil payload (is_inline payload);
              } in
              let result : db'.events ≡ (insert_or_ignore r s.db.events).0 = ground arith in
              rw result (insert_or_ignore-Keeps r s.db.events)))
  ]

  at-err :
      (io : Io) (r : BatchRecord) (at_time : ℤ) (s : Substrate) (x : Error)
      → (append_canonical_at hash io r at_time s).1 ≡ err x
      → (append_canonical_at hash io r at_time s).0.db ≡ s.db
  unfolding append_canonical_at
  at-err io r at_time s x e = elim (Bool-cases (r.seq == 0)) [
    | inl unset ↦ rw (unset, append_canonical_at)
    | inr placed ↦ elim (Bool-cases (hash r.payload == r.event_hash)) [
      | inr other ↦ rw (placed, other, append_canonical_at)
      | inl same ↦
          rw (placed, same, append_canonical_at)
            (settle-err s (kept s.blobs (write_oversized io 0 r.event_hash r.payload s.blobs))
              (transact_at io (stored_row at_time r) r.seq) x
              (rw (placed, same, append_canonical_at) at e))
    ]
  ]

  at-Extends :
      (io : Io) (r : BatchRecord) (at_time : ℤ) (s : Substrate)
      → Extends s (append_canonical_at hash io r at_time s).0
  unfolding append_canonical_at transact_at
  at-Extends io r at_time s = elim (Bool-cases (r.seq == 0)) [
    | inl unset ↦ rw (unset, append_canonical_at) (Extends-refl s)
    | inr placed ↦ elim (Bool-cases (hash r.payload == r.event_hash)) [
      | inr other ↦ rw (placed, other, append_canonical_at) (Extends-refl s)
      | inl same ↦
          rw (placed, same, append_canonical_at)
            (settle-Extends s _ (transact_at io (stored_row at_time r) r.seq)
              (kept-Keeps io 0 r.event_hash r.payload s.blobs)
              (λ db' done.
                let result : db'.events ≡ (insert_or_ignore (stored_row at_time r) s.db.events).0 =
                  ground arith in
                rw result (insert_or_ignore-Keeps (stored_row at_time r) s.db.events)))
    ]
  ]

  -- A write that returns an error leaves the events table and the position exactly as they were.
  pub write-err :
      (io : Io) (w : Write) (s : Substrate) (x : Error)
      → (write hash io w s).1 ≡ err x
      → (write hash io w s).0.db ≡ s.db
  unfolding write append_canonical record_rejected
  write-err io (appends row payload) s x e = append-err io row payload s x e
  write-err io (appends_canonical payload h event_time message_type at_time) s x e =
      elim (Bool-cases (hash payload == h)) [
        | inr other ↦ rw (other, append_canonical)
        | inl same ↦
            rw (same, append_canonical)
              (append-err io _ payload s x (rw (same, append_canonical) at e))
      ]
  write-err io (appends_batch recs rejected at_time) s x e =
      append_canonical_batch-err io recs rejected at_time s x e
  write-err io (appends_at r at_time) s x e = at-err io r at_time s x e
  write-err io (rejects seq) s x e = ground arith

  write-Extends : (io : Io) (w : Write) (s : Substrate) → Extends s (write hash io w s).0
  unfolding write append_canonical record_rejected
  write-Extends io (appends row payload) s = append-Extends io row payload s
  write-Extends io (appends_canonical payload h event_time message_type at_time) s =
      elim (Bool-cases (hash payload == h)) [
        | inr other ↦ rw (other, append_canonical) (Extends-refl s)
        | inl same ↦ rw (same, append_canonical) (append-Extends io _ payload s)
      ]
  write-Extends io (appends_batch recs rejected at_time) s =
      append_canonical_batch-Extends hash io recs rejected at_time s
  write-Extends io (appends_at r at_time) s = at-Extends io r at_time s
  write-Extends io (rejects seq) s =
      let same = record_rejected-rows io seq s in
      record {
        rows = subst (Keeps s.db.events) (sym same.0) (Keeps-refl s.db.events);
        files = subst (Keeps s.blobs) (sym same.1) (Keeps-refl s.blobs);
      }

  -- Append-only: whatever is written later, and whatever fails, no row that was in the table
  -- changes or goes, and no file's bytes change.
  pub run-Extends : (ws : List (Io × Write)) (s : Substrate) → Extends s (run hash ws s)
  unfolding run
  run-Extends [] s = Extends-refl s
  run-Extends ((io, w) ∷ ws) s =
      let one = write-Extends io w s in
      let rest = run-Extends ws (write hash io w s).0 in
      record {
        rows = Keeps-trans s.db.events _ _ one.rows rest.rows;
        files = Keeps-trans s.blobs _ _ one.files rest.files;
      }

-- ===== src/Substrate/Once.antt =====
-- `Append` and `AppendCanonical`: a record that was committed is held, and committing it again
-- changes nothing.
use ghost_trace.Prelude.{
  ℕ, ◌≡◌, refl, subst, ap, ◌∙◌, arith, Bool-cases, true, some, inl, inr, List, bytes_comparable,
  ◌==◌,
}
use ghost_trace.Prelude.Int.{ℤ}
use ghost_trace.Prelude.Dict.{lookup, contains, contains_of_lookup}
use ghost_trace.Canonical.{Bytes}
use ghost_trace.Substrate.{Result, ok, err, Substrate, StoredRow, EventRow, Db, Blobs, Io}
use ghost_trace.Substrate.Append.{
  is_inline, inlined_or_nil, insert_or_ignore, insert_one, kept, settle, commit_or_rollback,
  write_oversized, append, append_canonical,
}
use ghost_trace.Substrate.Inversion.{settle-ok}
use ghost_trace.Substrate.Growth.{insert_or_ignore-holds}

insert_one-holds :
    (io : Io) (row : EventRow) (payload : Bytes) (db db' : Db)
    → insert_one io row payload db ≡ ok db'
    → (x : StoredRow) × (lookup row.event_hash db'.events ≡ some x)
unfolding insert_one
insert_one-holds io row payload db db' e = elim (Bool-cases (io.insert_ok 0)) [
  | inr failed ↦ absurd (ground (arith, failed))
  | inl done ↦
      let written : ok (record db {
        events =
            (insert_or_ignore
              (record { row = row; payload = inlined_or_nil payload (is_inline payload) })
              db.events).0;
      })
          ≡ ok db' =
        rw done at e in
      subst (λ (d : Db). (x : StoredRow) × (lookup row.event_hash d.events ≡ some x))
        (ap (value db) written)
        (insert_or_ignore-holds
          (record { row = row; payload = inlined_or_nil payload (is_inline payload) }) db.events)
]
  where
    value : Db → Result Db → Db
    value d (ok x) = x
    value d (err _) = d

insert_one-held :
    (io : Io) (row : EventRow) (payload : Bytes) (db : Db) (t : Substrate)
    → contains row.event_hash db.events ≡ true
    → t.db ≡ db
    → (commit_or_rollback t (insert_one io row payload db)).0.db ≡ db
unfolding insert_one insert_or_ignore
insert_one-held io row payload db t held same = elim (Bool-cases (io.insert_ok 0)) [
  | inr failed ↦ rw failed same
  | inl done ↦ rw (done, held) refl
]

settle-held :
    (s : Substrate) (w : Blobs × Result (Unit {0})) (half : Db → Result Db)
    → ((t : Substrate) → t.db ≡ s.db → (commit_or_rollback t (half s.db)).0.db ≡ s.db)
    → (settle s w half).0.db ≡ s.db
settle-held s (blobs, err e) half keep = refl
settle-held s (blobs, ok u) half keep = keep (record s { blobs = blobs }) refl

module _ (hash : Bytes → Bytes) where
  append-holds :
      (io : Io) (row : EventRow) (payload : Bytes) (s s' : Substrate)
      → append hash io row payload s ≡ (s', ok tt)
      → (x : StoredRow) × (lookup row.event_hash s'.db.events ≡ some x)
  unfolding append
  append-holds io row payload s s' e = elim (Bool-cases (row.event_hash == hash payload)) [
    | inr other ↦ absurd (ground (arith, other))
    | inl same ↦
        let w = kept s.blobs (write_oversized io 0 row.event_hash payload s.blobs) in
        let committed : settle s w (insert_one io row payload) ≡ (s', ok tt) = rw same at e in
        let done =
          settle-ok s w (insert_one io row payload) tt
            (ap (λ (p : Substrate × Result (Unit {0})). p.1) committed) in
        let final = ap (λ (p : Substrate × Result (Unit {0})). p.0.db) committed in
        insert_one-holds io row payload s.db s'.db (done.1 ∙ ap ok final)
  ]

  append-held :
      (io : Io) (row : EventRow) (payload : Bytes) (s : Substrate)
      → contains row.event_hash s.db.events ≡ true
      → (append hash io row payload s).0.db ≡ s.db
  unfolding append
  append-held io row payload s held = elim (Bool-cases (row.event_hash == hash payload)) [
    | inr other ↦ rw other refl
    | inl same ↦ rw same (
        settle-held s (kept s.blobs (write_oversized io 0 row.event_hash payload s.blobs))
          (insert_one io row payload)
          (λ t unchanged. insert_one-held io row payload s.db t held unchanged))
  ]

  pub append_canonical-holds :
      (io : Io) (payload event_hash : Bytes) (event_time : ℤ) (message_type : List ℕ) (at_time : ℤ)
      (s s' : Substrate)
      → append_canonical hash io payload event_hash event_time message_type at_time s ≡ (s', ok tt)
      → (x : StoredRow) × (lookup event_hash s'.db.events ≡ some x)
  unfolding append_canonical
  append_canonical-holds io payload event_hash event_time message_type at_time s s' e =
      elim (Bool-cases (hash payload == event_hash)) [
        | inr other ↦ absurd (ground (arith, other))
        | inl same ↦ append-holds io _ payload s s' (rw same at e)
      ]

  -- Whatever the system answers, the database is left as it is when it holds the record.
  pub append_canonical-held :
      (io : Io) (payload event_hash : Bytes) (event_time : ℤ) (message_type : List ℕ) (at_time : ℤ)
      (s : Substrate) (x : StoredRow)
      → lookup event_hash s.db.events ≡ some x
      → (append_canonical hash io payload event_hash event_time message_type at_time s).0.db ≡ s.db
  unfolding append_canonical
  append_canonical-held io payload event_hash event_time message_type at_time s x there =
      elim (Bool-cases (hash payload == event_hash)) [
        | inr other ↦ rw other refl
        | inl same ↦
            rw same (append-held io _ payload s (contains_of_lookup event_hash x s.db.events there))
      ]

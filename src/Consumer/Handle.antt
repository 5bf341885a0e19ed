-- ===== src/Consumer/Handle.antt =====
-- `HandleBatch`, `isolate`, `report` and `Undecodable`.
use ghost_trace.Prelude.{
  ℕ, Bool, true, false, List, [], ◌∷◌, ◌++◌, none, some, length, ◌==◌, ℕ_comparable, if◌then◌else◌,
}
use ghost_trace.Prelude.Int.{ℤ}
use ghost_trace.Canonical.{Bytes}
use ghost_trace.Substrate.{Error, Result, ok, err, BatchRecord, Io, Substrate}
use ghost_trace.Substrate.Batch.{append_canonical_batch, record_rejected}
use ghost_trace.Consumer.{
  RejectReason, Consumer, add_rejected, add_committed, Item, RejectNote, decode_hash,
}

-- `errors.Is(err, substrate.ErrHashMismatch)`.
abbrev pub is_hash_mismatch : Error → Bool
is_hash_mismatch Error.hash_mismatch = true
is_hash_mismatch _ = false

pub data Verdict : Type 0 where
  unplaced : Verdict
  malformed : RejectNote → Verdict
  keep : BatchRecord → Verdict

abbrev pub to_batch_record : Item → Bytes → BatchRecord
to_batch_record it hash = record {
  payload = it.archive_record.canonical_payload;
  event_hash = hash;
  event_time = it.archive_record.event_time;
  message_type = it.archive_record.message_type;
  seq = it.sequence;
}

-- The body of the loop: no position, no hash, or a record to keep.
unfoldable pub classify : Item → Verdict
classify it =
    if it.sequence == 0 then unplaced else elim (decode_hash it.archive_record.event_hash) [
      | none ↦ malformed (record { seq = it.sequence; reason = RejectReason.malformed_hash })
      | some hash ↦ keep (to_batch_record it hash)
    ]

-- The local variables `recs`, `rejected` and `notes`.
pub record Partition : Type 0 where
  pub recs : List BatchRecord
  pub rejected : List ℕ
  pub notes : List RejectNote

abbrev pub add_verdict : Verdict → Partition → Partition
add_verdict unplaced p = p
add_verdict (malformed note) p = record p {
  rejected = note.seq ∷ p.rejected;
  notes = note ∷ p.notes;
}
add_verdict (keep r) p = record p { recs = r ∷ p.recs }

unfoldable pub partition : List Item → Partition
partition [] = record { recs = []; rejected = []; notes = [] }
partition (it ∷ its) = add_verdict (classify it) (partition its)

-- A record without a position is counted where it is met.
abbrev pub count_verdict : Verdict → Consumer → Consumer
count_verdict unplaced c = add_rejected RejectReason.no_sequence c
count_verdict _ c = c

unfoldable pub count_unplaced : List Item → Consumer → Consumer
count_unplaced [] c = c
count_unplaced (it ∷ its) c = count_unplaced its (count_verdict (classify it) c)

unfoldable pub report_notes : List RejectNote → Consumer → Consumer
report_notes [] c = c
report_notes (n ∷ ns) c = report_notes ns (add_rejected n.reason c)

unfoldable pub report_records : List BatchRecord → Consumer → Consumer
report_records [] c = c
report_records (r ∷ rs) c = report_records rs (add_committed r.message_type c)

unfoldable pub report : List BatchRecord → List RejectNote → Consumer → Consumer
unfolding report_notes report_records
report recs notes c = report_records recs (report_notes notes c)

-- What the slow path has found: records committed, and sequences whose bytes do not match.
pub record Isolated : Type 0 where
  pub committed : List BatchRecord
  pub poisoned : List ℕ
  pub notes : List RejectNote

abbrev pub add_committed_record : BatchRecord → Result Isolated → Result Isolated
add_committed_record r (ok i) = ok (record i { committed = r ∷ i.committed })
add_committed_record r (err e) = err e

abbrev pub add_poisoned : BatchRecord → Result Isolated → Result Isolated
add_poisoned r (ok i) = ok (record i {
  poisoned = r.seq ∷ i.poisoned;
  notes = record { seq = r.seq; reason = RejectReason.hash_mismatch } ∷ i.notes;
})
add_poisoned r (err e) = err e

-- The switch on the outcome of one record: any other error ends the loop.
unfoldable pub isolate_step :
    BatchRecord
    → Substrate × Result (Unit {0})
    → Substrate × Result Isolated
    → Substrate × Result Isolated
isolate_step r (s, ok _) (s', rest) = (s', add_committed_record r rest)
isolate_step r (s, err e) (s', rest) =
    if is_hash_mismatch e then (s', add_poisoned r rest) else (s, err e)

-- A consumer with the store that it writes.
pub record Archive : Type 0 where
  pub consumer : Consumer
  pub store : Substrate

-- The slow path reports only what is durable.
abbrev pub finish_isolate :
    List RejectNote
    → Isolated
    → Consumer
    → Substrate × Result (Unit {0})
    → Archive × Result (Unit {0})
finish_isolate notes i c (s, ok _) =
    (record { consumer = report i.committed (notes ++ i.notes) c; store = s }, ok tt)
finish_isolate notes i c (s, err e) = (record { consumer = c; store = s }, err e)

module _ (hash : Bytes → Bytes) where
  -- One record at a time; the number of records behind it picks the outcome of its call.
  unfoldable pub isolate_each :
      (ℕ → Io) → ℤ → List BatchRecord → Substrate → Substrate × Result Isolated
  unfolding isolate_step
  isolate_each ios at_time [] s = (s, ok (record { committed = []; poisoned = []; notes = [] }))
  isolate_each ios at_time (r ∷ rs) s =
      let one = append_canonical_batch hash (ios (length rs)) (r ∷ []) [] at_time s in
      let rest = isolate_each ios at_time rs one.0 in isolate_step r one rest

  -- The refusals of the slow path, accounted for together.
  unfoldable pub account_poisoned : Io → List ℕ → ℤ → Substrate → Substrate × Result (Unit {0})
  account_poisoned io [] at_time s = (s, ok tt)
  account_poisoned io poisoned at_time s = append_canonical_batch hash io [] poisoned at_time s

  unfoldable pub isolate :
      (ℕ → Io) → Io → ℤ → List BatchRecord → List RejectNote → Archive → Archive × Result (Unit {0})
  isolate ios io at_time recs notes a =
      let each = isolate_each ios at_time recs a.store in
      elim each.1 [
        | err e ↦ (record a { store = each.0 }, err e)
        | ok i ↦ finish_isolate notes i a.consumer (account_poisoned io i.poisoned at_time each.0)
      ]

  unfoldable pub handle_batch :
      Io → (ℕ → Io) → Io → ℤ → List Item → Archive → Archive × Result (Unit {0})
  handle_batch io ios last_io at_time batch a =
      let p = partition batch in
      let c = count_unplaced batch a.consumer in
      let all = append_canonical_batch hash io p.recs p.rejected at_time a.store in
      elim all.1 [
        | ok _ ↦ (record { consumer = report p.recs p.notes c; store = all.0 }, ok tt)
        | err e ↦
            if is_hash_mismatch e
            then isolate ios last_io at_time p.recs p.notes (record { consumer = c; store = all.0 })
            else (record { consumer = c; store = all.0 }, err e)
      ]

-- A message that the stream library terminated: accounted for if it has a position, and counted
-- whether or not that could be written down.
unfoldable pub undecodable : Io → ℕ → Archive → Archive
undecodable io sequence a =
    if sequence == 0
    then record a { consumer = add_rejected RejectReason.no_sequence a.consumer }
    else record {
      consumer = add_rejected RejectReason.undecodable a.consumer;
      store = (record_rejected io sequence a.store).0;
    }

-- ===== src/Consumer/Tests.antt =====
-- Batches of a few deliveries, with the identity as the hash function.
use ghost_trace.Prelude.{ℕ, zero, suc, ◌≡◌, ◌+◌, refl, true, List, [], ◌∷◌, All, bytes_equal}
use ghost_trace.Prelude.Int.{pos}
use ghost_trace.Prelude.Dict.{contains}
use ghost_trace.Canonical.{Bytes}
use ghost_trace.Substrate.{Error, ok, err, Io, BlobIo}
use ghost_trace.Substrate.Append.{insert_or_ignore, write_oversized}
use ghost_trace.Substrate.Batch.{
  position_upsert, append_canonical_batch, commit_batch, verify, transact, write_all_oversized,
  insert_records, cover, cover_rejected, stored_row,
}
use ghost_trace.Substrate.Accounting.{committed_total, duplicates_total, rejected_total}
use ghost_trace.Substrate.History.{empty_substrate}
use ghost_trace.Consumer.{Item, hex_decode, decode_hash}
use ghost_trace.Consumer.Handle.{
  classify, partition, count_unplaced, report, isolate_each, isolate_step, account_poisoned,
  isolate, handle_batch, Archive,
}
use ghost_trace.Consumer.Batches.{placed, unplaced_count, malformed_count}
use ghost_trace.Consumer.Outcomes.{
  ItemIsDurable, handle_batch-ItemIsDurable, handle_batch-accounted, handle_batch-isolated_loss,
}

abbrev same_bytes : Bytes → Bytes
same_bytes b = b

abbrev repeat : ℕ → ℕ → List ℕ
repeat zero x = []
repeat (suc n) x = x ∷ repeat n x

abbrev good_blob : BlobIo
good_blob = record {
  mkdir_ok = true;
  read_ok = true;
  temp_ok = true;
  write_ok = true;
  sync_ok = true;
  close_ok = true;
  rename_ok = true;
}

abbrev good_io : Io
good_io = record {
  blob = λ k. good_blob;
  begin_ok = true;
  prepare_ok = true;
  insert_ok = λ k. true;
  affected_ok = λ k. true;
  position_ok = true;
  commit_ok = true;
}

abbrev delivery : List ℕ → Bytes → ℕ → Item
delivery event_hash payload sequence = record {
  archive_record = record {
    event_hash = event_hash;
    canonical_payload = payload;
    event_time = pos 1;
    message_type = b'e' ∷ [];
    tenant = b't' ∷ [];
  };
  sequence = sequence;
}

abbrev sound_item : Item
sound_item = delivery (repeat 64 b'0') (repeat 32 0) 4

-- `not hex`, and a payload that is not the one its hash names.
abbrev malformed_item : Item
malformed_item = delivery (b'z' ∷ b'z' ∷ []) [] 5

abbrev poisoned_item : Item
poisoned_item = delivery (repeat 64 b'0') (1 ∷ []) 6

abbrev unplaced_item : Item
unplaced_item = delivery (repeat 64 b'0') (repeat 32 0) 0

abbrev clean : List Item
clean = sound_item ∷ malformed_item ∷ unplaced_item ∷ []

abbrev mixed : List Item
mixed = sound_item ∷ malformed_item ∷ poisoned_item ∷ []

abbrev start : Archive
start = record {
  consumer = record { committed = 0; rejected = 0; meter = [] };
  store = empty_substrate;
}

clean_archive : Archive
unfolding handle_batch partition classify decode_hash hex_decode count_unplaced report
    append_canonical_batch commit_batch verify transact write_all_oversized insert_records cover
    cover_rejected insert_or_ignore position_upsert contains stored_row write_oversized bytes_equal
clean_archive = (handle_batch same_bytes good_io (λ k. good_io) good_io (pos 2) clean start).0

clean_ok :
    handle_batch same_bytes good_io (λ k. good_io) good_io (pos 2) clean start
    ≡ (clean_archive, ok tt)
unfolding clean_archive
clean_ok = refl

clean_commits :
    (append_canonical_batch same_bytes good_io
      (partition clean).recs
      (partition clean).rejected
      (pos 2)
      start.store).1
    ≡ ok tt
unfolding clean_archive
clean_commits = refl

mixed_archive : Archive
unfolding clean_archive isolate isolate_each isolate_step account_poisoned
mixed_archive = (handle_batch same_bytes good_io (λ k. good_io) good_io (pos 2) mixed start).0

mixed_ok :
    handle_batch same_bytes good_io (λ k. good_io) good_io (pos 2) mixed start
    ≡ (mixed_archive, ok tt)
unfolding mixed_archive
mixed_ok = refl

mixed_mismatch :
    (append_canonical_batch same_bytes good_io
      (partition mixed).recs
      (partition mixed).rejected
      (pos 2)
      start.store).1
    ≡ err Error.hash_mismatch
unfolding mixed_archive
mixed_mismatch = refl

-- The process counts two rejections, and the position one.
mixed_counts :
    (mixed_archive.consumer.rejected ≡ 2) × (rejected_total mixed_archive.store.db.position ≡ 1)
unfolding mixed_archive
mixed_counts = (refl, refl)

handle_batch-ItemIsDurable_example :
    All (ItemIsDurable same_bytes mixed_archive.store.db.events) mixed
handle_batch-ItemIsDurable_example =
    handle_batch-ItemIsDurable same_bytes good_io (λ k. good_io) good_io (pos 2) mixed start
      mixed_archive mixed_ok

handle_batch-accounted_example :
    let after = clean_archive.store.db.position in
    (committed_total after + duplicates_total after + rejected_total after
      ≡ 0 + 0 + 0 + placed clean)
    × (rejected_total after ≡ 0 + malformed_count clean)
    × (clean_archive.consumer.rejected ≡ 0 + unplaced_count clean + malformed_count clean)
    × (clean_archive.consumer.committed + malformed_count clean ≡ 0 + placed clean)
handle_batch-accounted_example =
    handle_batch-accounted same_bytes good_io (λ k. good_io) good_io (pos 2) clean start
      clean_archive clean_ok clean_commits

handle_batch-isolated_loss_example :
    let after = mixed_archive.store.db.position in
    (committed_total after + duplicates_total after + rejected_total after + malformed_count mixed
      ≡ 0 + 0 + 0 + placed mixed)
    × (mixed_archive.consumer.rejected + 0
        ≡ 0 + unplaced_count mixed + malformed_count mixed + rejected_total after)
handle_batch-isolated_loss_example =
    handle_batch-isolated_loss same_bytes good_io (λ k. good_io) good_io (pos 2) mixed start
      mixed_archive mixed_ok mixed_mismatch

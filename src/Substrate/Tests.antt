-- ===== src/Substrate/Tests.antt =====
-- The archive on small inputs, with the identity as the hash function.
use ghost_trace.Prelude.{◌≡◌, refl, true, false, List, [], ◌∷◌, some, arith, bytes_equal, All}
use ghost_trace.Prelude.Int.{pos, negsuc, sub_ℕ}
use ghost_trace.Prelude.Dict.{lookup, contains}
use ghost_trace.Canonical.{Bytes, hash_hex}
use ghost_trace.Substrate.{ok, commit, Position, Substrate, BatchRecord, BlobIo, Io}
use ghost_trace.Substrate.Blob.{blob_path}
use ghost_trace.Substrate.Append.{insert_or_ignore, write_oversized}
use ghost_trace.Substrate.Batch.{
  position_upsert, append_canonical_at, transact_at, append_canonical_batch, commit_batch, verify,
  transact, write_all_oversized, insert_records, cover, cover_rejected, stored_row,
}
use ghost_trace.Substrate.Read.{read_blob, span, unaccounted}
use ghost_trace.Substrate.Soundness.{IsSound}
use ghost_trace.Substrate.History.{
  Write, appends_batch, appends_at, rejects, write, run, empty_substrate, run-IsSound,
}
use ghost_trace.Substrate.Accounting.{Accounts, append_canonical_batch-Accounts}
use ghost_trace.Substrate.Growth.{Extends}
use ghost_trace.Substrate.Durability.{append_canonical_batch-read_blob}
use ghost_trace.Substrate.Transactions.{write-err, run-Extends}
use ghost_trace.Substrate.Repeated.{unaccounted_repeated_content}
use ghost_trace.Substrate.Redelivery.{redelivery_position, unaccounted_redelivered_refusals}

abbrev pub same_bytes : Bytes → Bytes
same_bytes b = b

abbrev pub good_blob : BlobIo
good_blob = record {
  mkdir_ok = true;
  read_ok = true;
  temp_ok = true;
  write_ok = true;
  sync_ok = true;
  close_ok = true;
  rename_ok = true;
}

abbrev pub good_io : Io
good_io = record {
  blob = λ k. good_blob;
  begin_ok = true;
  prepare_ok = true;
  insert_ok = λ k. true;
  affected_ok = λ k. true;
  position_ok = true;
  commit_ok = true;
}

abbrev no_commit : Io
no_commit = record good_io { commit_ok = false }

abbrev first_record : BatchRecord
first_record = record {
  payload = 7 ∷ 255 ∷ [];
  event_hash = 7 ∷ 255 ∷ [];
  event_time = pos 5;
  message_type = b'a' ∷ [];
  seq = 4;
}

abbrev second_record : BatchRecord
second_record = record {
  payload = 9 ∷ 1 ∷ [];
  event_hash = 9 ∷ 1 ∷ [];
  event_time = pos 6;
  message_type = b'a' ∷ [];
  seq = 6;
}

abbrev both : List BatchRecord
both = first_record ∷ second_record ∷ []

-- The archive after a batch of two records and one refusal.
abbrev held_position : Position
held_position = record {
  first_seq = 4;
  highest_seq = 6;
  committed = 2;
  rejected = 1;
  duplicates = 0;
}

abbrev filled : Substrate
filled = record {
  db = record {
    events =
        (9 ∷ 1 ∷ [], stored_row (pos 10) second_record)
        ∷ (7 ∷ 255 ∷ [], stored_row (pos 10) first_record)
        ∷ [];
    position = some held_position;
  };
  blobs = [];
}

batch_fills :
    append_canonical_batch same_bytes good_io both (5 ∷ []) (pos 10) empty_substrate
    ≡ (filled, ok tt)
unfolding append_canonical_batch commit_batch verify transact write_all_oversized insert_records
    cover cover_rejected insert_or_ignore position_upsert contains stored_row blob_path hash_hex
    write_oversized bytes_equal
batch_fills = refl

hex_path : blob_path (7 ∷ 255 ∷ []) ≡ b'0' ∷ b'7' ∷ b'/' ∷ b'f' ∷ b'f' ∷ []
unfolding blob_path hash_hex
hex_path = refl

nothing_lost : unaccounted held_position ≡ pos 0
unfolding unaccounted span
nothing_lost = refl

abbrev history : List (Io × Write)
history =
    (good_io, appends_batch both (5 ∷ []) (pos 10))
    ∷ (no_commit, appends_at second_record (pos 11))
    ∷ (good_io, rejects 8)
    ∷ []

run-IsSound_example : IsSound same_bytes (run same_bytes history empty_substrate)
run-IsSound_example = run-IsSound same_bytes history

filled-IsSound : IsSound same_bytes filled
unfolding stored_row lookup bytes_equal
filled-IsSound = ground arith

append_canonical_batch-Accounts_example :
    Accounts empty_substrate.db
      (append_canonical_batch same_bytes good_io both (5 ∷ []) (pos 10) empty_substrate).0.db
      both
      (5 ∷ [])
append_canonical_batch-Accounts_example =
    append_canonical_batch-Accounts same_bytes good_io both (5 ∷ []) (pos 10) empty_substrate
      (rw batch_fills refl)

write-err_example :
    (write same_bytes no_commit (appends_at second_record (pos 11)) filled).0.db ≡ filled.db
unfolding write append_canonical_at transact_at write_oversized insert_or_ignore bytes_equal
    contains stored_row
write-err_example =
    write-err same_bytes no_commit (appends_at second_record (pos 11)) filled commit refl

run-Extends_example : Extends filled (run same_bytes history filled)
run-Extends_example = run-Extends same_bytes history filled

append_canonical_batch-read_blob_example :
    All
      (λ r.
        (payload : Bytes) × (read_blob same_bytes true r.event_hash filled ≡ ok payload)
        × (same_bytes payload ≡ r.event_hash))
      both
append_canonical_batch-read_blob_example =
    append_canonical_batch-read_blob same_bytes good_io both (5 ∷ []) (pos 10) empty_substrate
      filled (tt, tt) batch_fills

-- The same batch delivered again, as after a lost acknowledgement.
abbrev refilled : Substrate
refilled = record filled {
  db = record {
    events = filled.db.events;
    position = some (record held_position { rejected = 2; duplicates = 2 });
  };
}

batch_again :
    append_canonical_batch same_bytes good_io both (5 ∷ []) (pos 10) filled ≡ (refilled, ok tt)
unfolding append_canonical_batch commit_batch verify transact write_all_oversized insert_records
    cover cover_rejected insert_or_ignore position_upsert contains stored_row write_oversized
    bytes_equal
batch_again = refl

-- One refusal counted twice is a loss figure below zero.
negative_loss : unaccounted (record held_position { rejected = 2; duplicates = 2 }) ≡ negsuc 0
unfolding unaccounted span
negative_loss = refl

redelivery_position_example : refilled.db ≡ record {
  events = filled.db.events;
  position = some (record held_position { rejected = 2; duplicates = 2 });
}
unfolding lookup bytes_equal
redelivery_position_example =
    redelivery_position same_bytes good_io (pos 10) held_position both (5 ∷ []) filled refilled
      batch_again refl
      ((stored_row (pos 10) first_record, refl), ((stored_row (pos 10) second_record, refl), tt))
      (omega arith) (omega arith)

refused_again : append_canonical_batch same_bytes good_io [] (5 ∷ []) (pos 10) filled ≡ (
  record filled {
    db = record {
      events = filled.db.events;
      position = some (record held_position { rejected = 2 });
    };
  },
  ok tt,
)
unfolding append_canonical_batch commit_batch verify transact write_all_oversized insert_records
    cover cover_rejected position_upsert
refused_again = refl

unaccounted_redelivered_refusals_example :
    (q : Position) × (some (record held_position { rejected = 2 }) ≡ some q)
    × (unaccounted held_position ≡ sub_ℕ 3 3)
    × (unaccounted q ≡ sub_ℕ 3 4)
unaccounted_redelivered_refusals_example =
    unaccounted_redelivered_refusals same_bytes good_io (pos 10) held_position (5 ∷ []) filled _
      refused_again refl (omega arith) (omega arith) (omega arith) (omega arith) (omega arith)
      (omega arith)

-- The first record's content once more, published at a sequence of its own.
abbrev repeated_record : BatchRecord
repeated_record = record first_record { seq = 7 }

abbrev repeated_position : Position
repeated_position = record held_position { highest_seq = 7; duplicates = 1 }

repeated_commits :
    append_canonical_batch same_bytes good_io (repeated_record ∷ []) [] (pos 10) filled ≡ (
      record filled {
        db = record { events = filled.db.events; position = some repeated_position };
      },
      ok tt,
    )
unfolding append_canonical_batch commit_batch verify transact write_all_oversized insert_records
    cover cover_rejected position_upsert bytes_equal write_oversized insert_or_ignore contains
    stored_row
repeated_commits = refl

unaccounted_repeated_content_example :
    (q : Position) × (some repeated_position ≡ some q)
    × (unaccounted held_position ≡ sub_ℕ 3 3)
    × (unaccounted q ≡ sub_ℕ 4 3)
unfolding lookup bytes_equal
unaccounted_repeated_content_example =
    unaccounted_repeated_content same_bytes good_io (pos 10) held_position repeated_record
      (stored_row (pos 10) first_record) filled _ repeated_commits refl refl refl (omega arith)
      (omega arith) (omega arith) (omega arith) (omega arith)

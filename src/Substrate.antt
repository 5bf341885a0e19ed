-- ===== src/Substrate.antt =====
-- libs/substrate/substrate.go: the archive's primary event log. The SQLite database is a table of
-- events keyed by content hash and the one row of stream_position; the blob store is a map from a
-- path, relative to the blob directory, to a file's bytes. The mutex writeMu makes each operation
-- one step. What the file system and SQLite may answer is an argument of the operations.
pub mod Blob
pub mod Append
pub mod Read
pub mod Batch
pub mod Inversion
pub mod WriteOnce
pub mod Soundness
pub mod Rows
pub mod Once
pub mod History
pub mod Coverage
pub mod Accounting
pub mod Growth
pub mod Transactions
pub mod Durability
pub mod Loss
pub mod Redelivery
mod Repeated
pub mod Mismatch
pub mod Tests
use ghost_trace.Prelude.{ℕ, ◌≡◌, refl, ◌⊎◌, inl, inr, Bool, true, false, List, [], ◌∷◌, Option}
use ghost_trace.Prelude.Int.{ℤ}
use ghost_trace.Prelude.Dict.{Dict}
use ghost_trace.Canonical.{Bytes}

-- The errors that the operations return, each named for the step that failed.
pub data Error : Type 0 where
  hash_mismatch blob_collision no_sequence : Error
  mkdir_shard stat_blob create_temp write_temp sync_temp close_temp rename_temp : Error
  begin prepare insert_row rows_affected upsert_position commit read_row read_file : Error

-- A Go call that returns a value or a non-nil error.
pub data Result {κ} (V : Type κ) : Type κ where
  err : Error → Result V
  ok : V → Result V

infixl 5 ◌>>=◌ ◌>>◌
abbrev pub ◌>>=◌ {κ τ} : {V : Type κ} {W : Type τ} → Result V → (V → Result W) → Result W
first >>= next = elim first [ err e ↦ err e | ok v ↦ next v ]

abbrev pub ◌>>◌ {κ} : {W : Type κ} → Result (Unit {0}) → Result W → Result W
first >> second = elim first [ err e ↦ err e | ok _ ↦ second ]

-- `if err != nil { return err }`, where the flag says that the step succeeded.
abbrev pub require : Bool → Error → Result (Unit {0})
require true e = ok tt
require false e = err e

pub Result-cases {ℓ} :
    {A : Type ℓ} (r : Result A) → ((a : A) × (r ≡ ok a)) ⊎ ((e : Error) × (r ≡ err e))
Result-cases (ok a) = inl (a, refl)
Result-cases (err e) = inr (e, refl)

pub record EventRow : Type 0 where
  pub event_hash : Bytes
  pub event_time : ℤ
  pub message_type : List ℕ
  pub payload_ref : List ℕ
  pub committed_at : ℤ

-- A row of the events table: `payload` is NULL where the bytes live in a file.
pub record StoredRow : Type 0 where
  pub row : EventRow
  pub payload : Option Bytes

pub record Position : Type 0 where
  pub first_seq : ℕ
  pub highest_seq : ℕ
  pub committed : ℕ
  pub rejected : ℕ
  pub duplicates : ℕ

pub record Db : Type 0 where
  pub events : Dict Bytes StoredRow
  pub position : Option Position

abbrev pub Blobs : Type 0
Blobs = Dict (List ℕ) Bytes

pub record Substrate : Type 0 where
  pub db : Db
  pub blobs : Blobs

abbrev pub inline_threshold : ℕ
inline_threshold = 16384

pub record BatchRecord : Type 0 where
  pub payload : Bytes
  pub event_hash : Bytes
  pub event_time : ℤ
  pub message_type : List ℕ
  pub seq : ℕ

-- What the file system answers during one `writeBlob`.
pub record BlobIo : Type 0 where
  pub mkdir_ok : Bool
  pub read_ok : Bool
  pub temp_ok : Bool
  pub write_ok : Bool
  pub sync_ok : Bool
  pub close_ok : Bool
  pub rename_ok : Bool

-- What the system answers during one operation. A batch asks once for each record, and the
-- number is that of the records behind it.
pub record Io : Type 0 where
  pub blob : ℕ → BlobIo
  pub begin_ok : Bool
  pub prepare_ok : Bool
  pub insert_ok : ℕ → Bool
  pub affected_ok : ℕ → Bool
  pub position_ok : Bool
  pub commit_ok : Bool

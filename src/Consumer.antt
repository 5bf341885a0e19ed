-- ===== src/Consumer.antt =====
-- services/archive/internal/consumer/consumer.go: records arriving off the event stream, committed
-- into the substrate. The store behind the interface `Store` is the substrate; the meter is the
-- list of the calls it received, the newest first. Log lines are not modelled.
pub mod Handle
pub mod Isolation
pub mod Batches
pub mod Outcomes
pub mod Keeping
pub mod HexRoundTrip
pub mod Progress
pub mod Skipped
mod Tests
mod ProgressTests
use ghost_trace.Prelude.{
  ℕ, ◌+◌, ◌*◌, ◌-◌, Bool, true, false, ◌&&◌, List, [], ◌∷◌, Option, none, some, length, leb, ◌==◌,
  ℕ_comparable, if◌then◌else◌,
}
use ghost_trace.Prelude.Int.{ℤ}
use ghost_trace.Canonical.{Bytes}
use ghost_trace.Substrate.{BatchRecord}

pub data RejectReason : Type 0 where
  malformed_hash hash_mismatch undecodable no_sequence : RejectReason

pub data MeterCall : Type 0 where
  committed : List ℕ → MeterCall
  rejected : RejectReason → MeterCall

pub record Consumer : Type 0 where
  pub committed : ℕ
  pub rejected : ℕ
  pub meter : List MeterCall

-- `c.rejected.Add(1)` and `c.meter.Rejected(reason)`.
abbrev pub add_rejected : RejectReason → Consumer → Consumer
add_rejected reason c = record c {
  rejected = c.rejected + 1;
  meter = MeterCall.rejected reason ∷ c.meter;
}

abbrev pub add_committed : List ℕ → Consumer → Consumer
add_committed message_type c = record c {
  committed = c.committed + 1;
  meter = MeterCall.committed message_type ∷ c.meter;
}

-- The fields of eventsv1.ArchiveRecord that are read; `event_hash` is text.
pub record ArchiveRecord : Type 0 where
  pub event_hash : List ℕ
  pub canonical_payload : Bytes
  pub event_time : ℤ
  pub message_type : List ℕ
  pub tenant : List ℕ

-- eventstream.Item, with the sequence of its Delivery.
pub record Item : Type 0 where
  pub archive_record : ArchiveRecord
  pub sequence : ℕ

pub record RejectNote : Type 0 where
  pub seq : ℕ
  pub reason : RejectReason

abbrev pub hex_value : ℕ → Option ℕ
hex_value c =
    if leb b'0' c && leb c b'9'
    then some (c - b'0')
    else if leb b'a' c && leb c b'f'
    then some (c - 87)
    else if leb b'A' c && leb c b'F'
    then some (c - 55)
    else none

abbrev pub hex_byte : Option ℕ → Option ℕ → Option Bytes → Option Bytes
hex_byte (some high) (some low) (some rest) = some ((high * 16 + low) ∷ rest)
hex_byte _ _ _ = none

-- `hex.DecodeString`: pairs of hex digits of either case, and an error for anything else.
unfoldable pub hex_decode : List ℕ → Option Bytes
hex_decode [] = some []
hex_decode (a ∷ []) = none
hex_decode (a ∷ b ∷ cs) = hex_byte (hex_value a) (hex_value b) (hex_decode cs)

-- The identity of a record, if it is 32 bytes in hex.
unfoldable pub decode_hash : List ℕ → Option Bytes
decode_hash text = elim (hex_decode text) [
  | none ↦ none
  | some raw ↦ if length raw == 32 then some raw else none
]

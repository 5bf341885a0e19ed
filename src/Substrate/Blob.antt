-- ===== src/Substrate/Blob.antt =====
-- `blobPath` and `writeBlob`: write-once files named for their content.
use ghost_trace.Prelude.{
  ℕ, List, ◌∷◌, ◌++◌, Option, none, some, take, drop, ◌==◌, bytes_comparable, if◌then◌else◌,
}
use ghost_trace.Prelude.Dict.{lookup, insert}
use ghost_trace.Canonical.{Bytes, hash_hex}
use ghost_trace.Substrate.{
  blob_collision, mkdir_shard, stat_blob, create_temp, write_temp, sync_temp, close_temp,
  rename_temp, Result, ok, err, ◌>>◌, require, Blobs, BlobIo,
}

-- The first two hex characters name the shard; also the text of `payload_ref`.
unfoldable pub blob_path : Bytes → List ℕ
blob_path h = take 2 (hash_hex h) ++ (b'/' ∷ drop 2 (hash_hex h))

-- The temporary file is written, synced, closed and renamed, or removed.
unfoldable pub create_blob : BlobIo → List ℕ → Bytes → Blobs → Result Blobs
create_blob io path payload blobs = do
  require io.temp_ok create_temp
  require io.write_ok write_temp
  require io.sync_ok sync_temp
  require io.close_ok close_temp
  require io.rename_ok rename_temp
  ok (insert path payload blobs)

-- An existing file is compared and kept; a missing one is created.
unfoldable pub place_blob : BlobIo → List ℕ → Bytes → Blobs → Option Bytes → Result Blobs
unfolding create_blob
place_blob io path payload blobs (some existing) =
    if existing == payload then ok blobs else err blob_collision
place_blob io path payload blobs none = create_blob io path payload blobs

unfoldable pub write_blob : BlobIo → Bytes → Bytes → Blobs → Result Blobs
unfolding place_blob
write_blob io hash payload blobs = do
  require io.mkdir_ok mkdir_shard
  require io.read_ok stat_blob
  place_blob io (blob_path hash) payload blobs (lookup (blob_path hash) blobs)

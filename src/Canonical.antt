-- ===== src/Canonical.antt =====
-- libs/canonical/canonical.go: the hex form of a content hash. The hash function itself,
-- BLAKE3-256 of lukechampine.com/blake3, is the parameter `hash` of the modules that use it,
-- and so are the bytes that google.golang.org/protobuf makes of a message.
use ghost_trace.Prelude.{ℕ, ◌+◌, ◌/◌, ◌%◌, List, [], ◌∷◌, ltb, if◌then◌else◌}

-- A byte slice, each element below 256.
abbrev pub Bytes : Type 0
Bytes = List ℕ

abbrev pub hex_digit : ℕ → ℕ
hex_digit d = if ltb d 10 then d + b'0' else d + 87

-- `HashHex`, by way of `hex.EncodeToString`.
unfoldable pub hash_hex : Bytes → List ℕ
hash_hex [] = []
hash_hex (b ∷ bs) = hex_digit (b / 16) ∷ hex_digit (b % 16) ∷ hash_hex bs

-- ===== src/Consumer/HexRoundTrip.antt =====
-- The identity that `canonical.HashHex` writes is the one that `decodeHash` reads.
use ghost_trace.Prelude.{
  ℕ, ◌≡◌, ◌<◌, ◌/◌, ◌*◌, ◌+◌, ◌%◌, refl, List, [], ◌∷◌, some, arith, All, length, ℕ_comparable,
}
use ghost_trace.Canonical.{Bytes, hex_digit, hash_hex}
use ghost_trace.Consumer.{hex_value, hex_decode, decode_hash}

-- A list of bytes.
abbrev pub IsBytes : List ℕ → Type 0
IsBytes b = All (λ c. c < 256) b

hex_value-hex_digit : (d : ℕ) → d < 16 → hex_value (hex_digit d) ≡ some d
hex_value-hex_digit d h = ground arith

high_digit : (b : ℕ) → b < 256 → b / 16 < 16
high_digit b h = omega arith

low_digit : (b : ℕ) → b % 16 < 16
low_digit b = omega arith

digits : (b : ℕ) → b / 16 * 16 + b % 16 ≡ b
digits b = omega arith

hex_decode-hash_hex : (b : Bytes) → IsBytes b → hex_decode (hash_hex b) ≡ some b
unfolding hex_decode hash_hex
hex_decode-hash_hex [] h = refl
hex_decode-hash_hex (c ∷ cs) h =
    rw
      (
        hex_value-hex_digit (c / 16) (high_digit c h.0),
        hex_value-hex_digit (c % 16) (low_digit c),
        hex_decode-hash_hex cs h.1,
        digits c,
      )
      refl

pub decode_hash-hash_hex :
    (b : Bytes) → IsBytes b → length b ≡ 32 → decode_hash (hash_hex b) ≡ some b
unfolding decode_hash
decode_hash-hash_hex b h len = ground (arith, hex_decode-hash_hex b h)

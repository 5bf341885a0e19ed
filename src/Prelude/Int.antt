-- ===== src/Prelude/Int.antt =====
-- Integers over the native numbers, and Go's uint64 and int64 with their wrap-around.
use Prim.Native.Nat.{ℕ, suc, ◌+◌, ◌-◌, ◌%◌, ◌≤◌}
use ghost_trace.Prelude.Tests.{ltb, leb, eqb, if◌then◌else◌}
use mathlib.Core.Path.{◌≡◌}
use native.Mathlib.Omega.{arith}
use mathlib.Core.Bool.{Bool, ◌&&◌}

-- `negsuc n` is -(n + 1).
pub data ℤ : Type 0 where
  pos : ℕ → ℤ
  negsuc : ℕ → ℤ

abbrev pub pos_part : ℤ → ℕ
pos_part (pos n) = n
pos_part (negsuc _) = 0

abbrev pub neg_part : ℤ → ℕ
neg_part (pos _) = 0
neg_part (negsuc n) = suc n

-- a - b, as an integer.
abbrev pub sub_ℕ : ℕ → ℕ → ℤ
sub_ℕ a b = if leb b a then pos (a - b) else negsuc (b - a - 1)

-- The int64 with the bit pattern of a uint64.
abbrev pub to_int64 : ℕ → ℤ
to_int64 n =
    let r = n % 18446744073709551616 in
    if ltb r 9223372036854775808 then pos r else negsuc (18446744073709551615 - r)

-- An integer reduced into the range of int64, as Go's arithmetic does.
abbrev pub wrap_int64 : ℤ → ℤ
wrap_int64 (pos n) = to_int64 n
wrap_int64 (negsuc n) = to_int64 (18446744073709551615 - n % 18446744073709551616)

infixl 65 ◌+ℤ◌ ◌-ℤ◌
infix 50 ◌≤ℤ◌
abbrev pub ◌+ℤ◌ : ℤ → ℤ → ℤ
a +ℤ b = sub_ℕ (pos_part a + pos_part b) (neg_part a + neg_part b)

abbrev pub ◌-ℤ◌ : ℤ → ℤ → ℤ
a -ℤ b = sub_ℕ (pos_part a + neg_part b) (neg_part a + pos_part b)

abbrev pub ◌≤ℤ◌ : ℤ → ℤ → Type 0
a ≤ℤ b = pos_part a + neg_part b ≤ pos_part b + neg_part a

-- An integer reduced into the range of int32.
abbrev pub to_int32 : ℕ → ℤ
to_int32 n = let r = n % 4294967296 in if ltb r 2147483648 then pos r else negsuc (4294967295 - r)

abbrev pub wrap_int32 : ℤ → ℤ
wrap_int32 (pos n) = to_int32 n
wrap_int32 (negsuc n) = to_int32 (4294967295 - n % 4294967296)

-- `==` on integers.
abbrev pub int_eq : ℤ → ℤ → Bool
int_eq a b = eqb (pos_part a) (pos_part b) && eqb (neg_part a) (neg_part b)

-- The range of int64.
abbrev pub InInt64 : ℤ → Type 0
InInt64 t = (negsuc 9223372036854775807 ≤ℤ t) × (t ≤ℤ pos 9223372036854775807)

pub wrap_int64-InInt64 : (t : ℤ) → InInt64 (wrap_int64 t)
wrap_int64-InInt64 (pos n) = ground arith
wrap_int64-InInt64 (negsuc n) = ground arith

pub wrap_int64_exact : (t : ℤ) → InInt64 t → wrap_int64 t ≡ t
wrap_int64_exact (pos n) h = ground arith
wrap_int64_exact (negsuc n) h = ground arith

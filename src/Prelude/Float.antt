-- ===== src/Prelude/Float.antt =====
-- Go's float64, as a parameter: the operations the program calls and the facts of IEEE 754 that its
-- proofs need. The facts hold for every value, NaN and the infinities included.
use ghost_trace.Prelude.Int.{ℤ}
use mathlib.Core.Path.{◌≡◌}
use mathlib.Core.Bool.{Bool, true, false}
use Prim.Native.Nat.{ℕ}

pub record Float64 (F : Type 0) : Type 0 where
  -- `a < b`, `a <= b` and `a == b`
  pub lt : F → F → Bool
  pub le : F → F → Bool
  pub eq : F → F → Bool
  pub add : F → F → F
  pub sub : F → F → F
  pub mul : F → F → F
  pub div : F → F → F
  pub sqrt : F → F
  pub hypot : F → F → F
  pub acos : F → F
  -- `float64(n)` and `int64(v)`
  pub of_int : ℤ → F
  pub trunc : F → ℤ
  -- The constant n/d, and the constant π/n.
  pub literal : ℕ → ℕ → F
  pub pi_over : ℕ → F
  -- At most one of `a < b`, `b <= a` is true.
  pub lt_not_le : (a b : F) → lt a b ≡ true → le b a ≡ false
  pub lt_le : (a b : F) → lt a b ≡ true → le a b ≡ true
  pub lt_le_trans : (a b c : F) → lt a b ≡ true → le b c ≡ true → lt a c ≡ true
  pub zero_lt_one : lt (literal 0 1) (literal 1 1) ≡ true

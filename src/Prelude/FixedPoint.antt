-- ===== src/Prelude/FixedPoint.antt =====
-- Numbers in thousandths, with which the tests instantiate the float64 parameter.
use Prim.Native.Nat.{ℕ, ◌+◌, ◌-◌, ◌*◌, ◌/◌}
use ghost_trace.Prelude.Tests.{ltb, leb, eqb}
use ghost_trace.Prelude.Int.{pos, pos_part}
use ghost_trace.Prelude.Float.{Float64}
use mathlib.Core.Path.{◌≡◌, refl}
use mathlib.Core.Bool.{true, false}
use native.Mathlib.Omega.{arith}

pub lt_not_le_lem : (a b : ℕ) → ltb a b ≡ true → leb b a ≡ false
lt_not_le_lem a b h = ground arith

pub lt_le_lem : (a b : ℕ) → ltb a b ≡ true → leb a b ≡ true
lt_le_lem a b h = ground arith

pub lt_le_trans_lem : (a b c : ℕ) → ltb a b ≡ true → leb b c ≡ true → ltb a c ≡ true
lt_le_trans_lem a b c h g = ground arith

abbrev pub fixed_point : Float64 ℕ
fixed_point = record {
  lt = ltb;
  le = leb;
  eq = eqb;
  add = λ a b. a + b;
  sub = λ a b. a - b;
  mul = λ a b. a * b / 1000;
  div = λ a b. a * 1000 / b;
  sqrt = λ a. a;
  hypot = λ a b. a + b;
  acos = λ a. 0;
  of_int = λ z. pos_part z * 1000;
  trunc = λ a. pos (a / 1000);
  literal = λ n d. n * 1000 / d;
  pi_over = λ n. 3142 / n;
  lt_not_le = lt_not_le_lem;
  lt_le = lt_le_lem;
  lt_le_trans = lt_le_trans_lem;
  zero_lt_one = refl;
}

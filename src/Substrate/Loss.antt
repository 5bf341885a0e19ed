-- ===== src/Substrate/Loss.antt =====
-- The loss figure `Unaccounted`, computed in uint64 and int64, against the subtraction it stands for.
use ghost_trace.Prelude.{ℕ, ◌+◌, ◌-◌, ◌≤◌, ◌<◌, ◌≡◌, arith, ℕ_comparable}
use ghost_trace.Prelude.Int.{pos, pos_part, neg_part, sub_ℕ, ◌-ℤ◌, wrap_int64}
use ghost_trace.Substrate.{Position}
use ghost_trace.Substrate.Read.{span, unaccounted}

abbrev two_63 : ℕ
two_63 = 9223372036854775808

wrap_int64-pos : (n : ℕ) → n < two_63 → wrap_int64 (pos n) ≡ pos n
wrap_int64-pos n h = ground arith

wrap_int64-sub : (a b : ℕ) → a < two_63 → b < two_63 → wrap_int64 (sub_ℕ a b) ≡ sub_ℕ a b
wrap_int64-sub a b h k = ground arith

-- With the highest sequence below 2^63 the uint64 subtraction does not wrap.
span_lem :
    (p : Position)
    → 0 < p.first_seq
    → p.first_seq ≤ p.highest_seq
    → p.highest_seq < 9223372036854775807
    → span p ≡ pos (p.highest_seq - p.first_seq + 1)
unfolding span
span_lem p h k b = ground arith

wrap_int64-sub_sub :
    (a b c : ℕ)
    → a < 4611686018427387904
    → b < 4611686018427387904
    → c < 4611686018427387904
    → wrap_int64 (wrap_int64 (pos a -ℤ pos b) -ℤ pos c) ≡ sub_ℕ a (b + c)
wrap_int64-sub_sub a b c ha hb hc =
    rw (wrap_int64-sub (a + 0) (0 + b) (omega arith) (omega arith)) (
      rw
        (wrap_int64-sub (pos_part (sub_ℕ (a + 0) (0 + b)) + 0)
          (neg_part (sub_ℕ (a + 0) (0 + b)) + c) (ground arith) (ground arith))
        (ground arith))

-- While the sequences and the counters stay below 2^62, `Unaccounted` is the number of sequences
-- from the first to the highest, less those committed and those refused, as an integer.
pub unaccounted_lem :
    (p : Position)
    → 0 < p.first_seq
    → p.first_seq ≤ p.highest_seq
    → p.highest_seq < 4611686018427387904
    → p.committed < 4611686018427387904
    → p.rejected < 4611686018427387904
    → unaccounted p ≡ sub_ℕ (p.highest_seq - p.first_seq + 1) (p.committed + p.rejected)
unfolding unaccounted
unaccounted_lem p h k b c r =
    rw (span_lem p h k (omega arith))
      (wrap_int64-sub_sub _ p.committed p.rejected (omega arith) c r)

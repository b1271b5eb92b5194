-- ===== src/Timeouts/Reference.antt =====
-- Fractions in place of floating point: what `Floats` asks for can be had.
use iroh_raft.Common.{ℕ, suc, zero, arith, ◌*◌, ◌/◌, ltb, Bool}
use iroh_raft.Timeouts.Numbers.{Floats}

-- A numerator and a denominator.
abbrev pub Fraction : Type 0
Fraction = ℕ × ℕ

abbrev pub below : Fraction → Fraction → Bool
below (a, b) (c, d) = ltb (a * d) (c * b)

abbrev pub times : ℕ → Fraction → ℕ
times n (a, suc b) = n * a / suc b
times n (a, zero) = 0

abbrev pub times_twice : ℕ → Fraction → Fraction → ℕ
times_twice n p q = times (times n p) q

abbrev pub fractions : Floats
fractions = record {
  F64 = Fraction;
  zero_rate = (0, 1);
  tenth = (1, 10);
  fiftieth = (1, 50);
  four_fifths = (4, 5);
  one_and_half = (3, 2);
  two = (2, 1);
  three = (3, 1);
  ratio = λ (a : ℕ) (b : ℕ). (a, b);
  less = below;
  mul_f64 = times;
  jitter_ms = times_twice;
  mul_f64_grows = λ (d : ℕ). omega arith;
}

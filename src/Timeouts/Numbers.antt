-- ===== src/Timeouts/Numbers.antt =====
-- The floating-point numbers that src/timeout_manager.rs uses, and its products of a `Duration` with one.
use iroh_raft.Common.{ℕ, ◌≤◌, Bool}

-- `ratio a b` is `a as f64 / b as f64`, `mul_f64` that of `Duration`, and `jitter_ms` the product
-- of a number of milliseconds, the factor and a random number, as an integer. A product with 1.5 is not
-- below the duration.
pub record Floats : Type 1 where
  pub F64 : Type 0
  pub zero_rate : F64
  pub tenth : F64
  pub fiftieth : F64
  pub four_fifths : F64
  pub one_and_half : F64
  pub two : F64
  pub three : F64
  pub ratio : ℕ → ℕ → F64
  pub less : F64 → F64 → Bool
  pub mul_f64 : ℕ → F64 → ℕ
  pub jitter_ms : ℕ → F64 → F64 → ℕ
  pub mul_f64_grows : (d : ℕ) → d ≤ mul_f64 d one_and_half

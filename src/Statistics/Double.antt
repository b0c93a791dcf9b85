-- ===== src/Statistics/Double.antt =====
-- What src/pfd.c does with a `double`.
use altered_ccbench_fork.Common.{ℕ, Bool}

-- `of_ticks` converts an unsigned integer, `to_ticks` a double to a uint64_t; `le` and `lt` are `<=`
-- and `<`. The constants are written with their names: 0.1, 0.25, 0.5, 0.75, 2.0, DBL_MAX and NAN.
pub record Double {ℓ} (D : Type ℓ) : Type ℓ where
  pub of_ticks : ℕ → D
  pub to_ticks : D → ℕ
  pub plus : D → D → D
  pub minus : D → D → D
  pub times : D → D → D
  pub over : D → D → D
  pub negated : D → D
  pub sqrt : D → D
  pub le : D → D → Bool
  pub lt : D → D → Bool
  pub is_finite : D → Bool
  pub tenth : D
  pub quarter : D
  pub half : D
  pub three_quarters : D
  pub dbl_max : D
  pub two : D
  pub nan : D

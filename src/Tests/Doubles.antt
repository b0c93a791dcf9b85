-- ===== src/Tests/Doubles.antt =====
-- Numbers in twentieths, with `none` for NaN: what the theorems ask of a double can be met. The
-- difference is the distance, so that no number is negative.
use altered_ccbench_fork.Common.{
  ℕ, zero, suc, ◌+◌, ◌-◌, ◌*◌, ◌/◌, ◌^◌, refl, arith, Bool, true, false, Option, none, some,
  if◌then◌else◌, ltb, leb,
}
use altered_ccbench_fork.Statistics.Double.{Double}
use altered_ccbench_fork.Statistics.Extremes.{IsExact}
use altered_ccbench_fork.Statistics.Estimate.{IsRounding}

abbrev pub Twentieths : Type 0
Twentieths = Option ℕ

abbrev on_both : (ℕ → ℕ → Twentieths) → Twentieths → Twentieths → Twentieths
on_both f (some a) (some b) = f a b
on_both f _ _ = none

abbrev test_both : (ℕ → ℕ → Bool) → Twentieths → Twentieths → Bool
test_both f (some a) (some b) = f a b
test_both f _ _ = false

abbrev quotient : ℕ → ℕ → Twentieths
quotient a zero = none
quotient a (suc b) = some (20 * a / suc b)

abbrev whole : Twentieths → ℕ
whole none = 0
whole (some a) = a / 20

abbrev is_number : Twentieths → Bool
is_number none = false
is_number (some a) = true

instance abbrev pub twentieths : Double Twentieths
twentieths = record {
  of_ticks = λ n. some (20 * n);
  to_ticks = whole;
  plus = on_both (λ a b. some (a + b));
  minus = on_both (λ a b. some (if ltb a b then b - a else a - b));
  times = on_both (λ a b. some (a * b / 20));
  over = on_both quotient;
  negated = λ a. a;
  sqrt = λ a. a;
  le = test_both leb;
  lt = test_both ltb;
  is_finite = is_number;
  tenth = some 2;
  quarter = some 5;
  half = some 10;
  three_quarters = some 15;
  dbl_max = some (20 * 2 ^ 60);
  two = some 40;
  nan = none;
}

pub twentieths-IsExact : IsExact Twentieths
twentieths-IsExact = record {
  lt_of_ticks = λ m n small small'. ground arith;
  lt_dbl_max = λ n small. ground arith;
}

pub twentieths-IsRounding : IsRounding Twentieths
twentieths-IsRounding = record {
  nan_finite = refl;
  ticks_finite = λ n small. refl;
  mean_finite = λ m n small small'. refl;
  ticks_positive = λ n more small. ground arith;
  mean_positive = λ m n more small small'. ground arith;
  ticks_round = λ n small. omega arith;
  mean_round = λ m n small small'. omega arith;
}

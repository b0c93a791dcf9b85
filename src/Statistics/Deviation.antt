-- ===== src/Statistics/Deviation.antt =====
-- `get_abs_deviation` and `absd`.
use altered_ccbench_fork.Common.{
  ℕ, ◌+◌, ◌^◌, Bool, true, false, ◌||◌, List, [], ◌∷◌, if◌then◌else◌, ltb, leb, length,
}
use altered_ccbench_fork.Machine.{u32, u64}
use altered_ccbench_fork.Statistics.Double.{Double}

-- The five classes of deviation. What the code keeps in five variables, one of each suffix `_10p`,
-- `_25p`, `_50p`, `_75p` and `_rst`, is a function of the class here.
pub data Class : Type 0 where
  within_10p within_25p within_50p within_75p rest : Class

abbrev pub same_class : Class → Class → Bool
same_class within_10p within_10p = true
same_class within_25p within_25p = true
same_class within_50p within_50p = true
same_class within_75p within_75p = true
same_class rest rest = true
same_class _ _ = false

pub record AbsDeviation {ℓ} (D : Type ℓ) : Type ℓ where
  pub num_vals : ℕ
  pub avg : D
  pub avg_of : Class → D
  pub abs_dev_of : Class → D
  pub abs_dev : D
  pub std_dev_of : Class → D
  pub std_dev : D
  pub min_val : D
  pub min_val_idx : ℕ
  pub max_val : D
  pub max_val_idx : ℕ
  pub num_dev_of : Class → ℕ

-- `if ((int64_t) vals[i] < 0 || vals[i] > PFD_VAL_UP_LIMIT) vals[i] = 0;`
unfoldable pub limited : ℕ → ℕ
limited v = if leb (2 ^ 63) v || ltb 1500 v then 0 else v

-- The first loop: the values that stay in the array, and `sum_vals`.
unfoldable pub limit_vals : List ℕ → ℕ → List ℕ × ℕ
unfolding limited
limit_vals [] sum_vals = ([], sum_vals)
limit_vals (v ∷ vs) sum_vals =
    let (left, sum) = limit_vals vs (u64 (sum_vals + limited v)) in (limited v ∷ left, sum)

pub record Extremes {ℓ} (D : Type ℓ) : Type ℓ where
  pub max_val : D
  pub max_val_idx : ℕ
  pub min_val : D
  pub min_val_idx : ℕ

-- The variables of the second loop.
pub record Sums {ℓ} (D : Type ℓ) : Type ℓ where
  pub extremes : Extremes D
  pub num_dev : Class → ℕ
  pub sum_vals : Class → ℕ
  pub sum_adev : D
  pub sum_stdev : D

module _ {ℓ} {D : Type ℓ} ⦃d : Double D⦄ where
  abbrev pub zero_double : D
  zero_double = d.of_ticks 0

  unfoldable pub absd : D → D
  absd x = if d.le zero_double x then x else d.negated x

  -- `if (ad <= dev_10p) … else if …`
  unfoldable pub class_of : D → D → Class
  class_of avg ad =
      if d.le ad (d.times d.tenth avg)
      then within_10p
      else if d.le ad (d.times d.quarter avg)
      then within_25p
      else if d.le ad (d.times d.half avg)
      then within_50p
      else if d.le ad (d.times d.three_quarters avg)
      then within_75p
      else rest

  abbrev pub deviation : D → ℕ → D
  deviation avg v = absd (d.minus (d.of_ticks v) avg)

  unfoldable pub extend : ℕ → ℕ → Extremes D → Extremes D
  extend i v e =
      if d.lt e.max_val (d.of_ticks v)
      then record e { max_val = d.of_ticks v; max_val_idx = i }
      else if d.lt (d.of_ticks v) e.min_val
      then record e { min_val = d.of_ticks v; min_val_idx = i }
      else e

  abbrev pub initial_sums : Sums D
  initial_sums = record {
    extremes = record {
      max_val = zero_double;
      max_val_idx = 0;
      min_val = d.dbl_max;
      min_val_idx = 0;
    };
    num_dev = λ c. 0;
    sum_vals = λ c. 0;
    sum_adev = zero_double;
    sum_stdev = zero_double;
  }

  -- Its body, for the value at `i`.
  unfoldable pub add_val : D → ℕ → ℕ → Sums D → Sums D
  unfolding extend class_of absd
  add_val avg i v s =
      let ad = deviation avg v in
      let own = class_of avg ad in
      record {
        extremes = extend i v s.extremes;
        num_dev = λ c. if same_class c own then u32 (s.num_dev c + 1) else s.num_dev c;
        sum_vals = λ c. if same_class c own then u64 (s.sum_vals c + v) else s.sum_vals c;
        sum_adev = d.plus s.sum_adev ad;
        sum_stdev = d.plus s.sum_stdev (d.times ad ad);
      }

  unfoldable pub add_vals : D → ℕ → List ℕ → Sums D → Sums D
  unfolding add_val
  add_vals avg i [] s = s
  add_vals avg i (v ∷ vs) s = add_vals avg (i + 1) vs (add_val avg i v s)

  -- The third loop: `sum_adev` and `sum_stdev` of each class, about its own average.
  unfoldable pub add_deviations :
      D → (Class → D) → List ℕ → (Class → D) → (Class → D) → (Class → D) × (Class → D)
  unfolding class_of absd
  add_deviations avg avg_of [] sum_adev sum_stdev = (sum_adev, sum_stdev)
  add_deviations avg avg_of (v ∷ vs) sum_adev sum_stdev =
      let own = class_of avg (deviation avg v) in
      let ad = deviation (avg_of own) v in
      add_deviations avg avg_of vs
        (λ c. if same_class c own then d.plus (sum_adev c) ad else sum_adev c)
        (λ c. if same_class c own then d.plus (sum_stdev c) (d.times ad ad) else sum_stdev c)

  -- Behind the first loop.
  unfoldable pub summarised : List ℕ → ℕ → ℕ → AbsDeviation D
  unfolding add_vals add_deviations
  summarised vals num_vals sum_vals =
      let count = d.of_ticks num_vals in
      let avg = d.over (d.of_ticks sum_vals) count in
      let s = add_vals avg 0 vals initial_sums in
      let avg_of : Class → D = λ c. d.over (d.of_ticks (s.sum_vals c)) (d.of_ticks (s.num_dev c)) in
      let (sum_adev, sum_stdev) =
        add_deviations avg avg_of vals (λ c. zero_double) (λ c. zero_double) in
      record {
        num_vals = num_vals;
        avg = avg;
        avg_of = avg_of;
        abs_dev_of = λ c. d.over (sum_adev c) (d.of_ticks (s.num_dev c));
        abs_dev = d.over s.sum_adev count;
        std_dev_of = λ c. d.sqrt (d.over (sum_stdev c) (d.of_ticks (s.num_dev c)));
        std_dev = d.sqrt (d.over s.sum_stdev count);
        min_val = s.extremes.min_val;
        min_val_idx = s.extremes.min_val_idx;
        max_val = s.extremes.max_val;
        max_val_idx = s.extremes.max_val_idx;
        num_dev_of = s.num_dev;
      }

  -- The result, and the array as it is left.
  unfoldable pub get_abs_deviation : List ℕ → AbsDeviation D × List ℕ
  unfolding limit_vals summarised
  get_abs_deviation vals =
      let (left, sum_vals) = limit_vals vals 0 in (summarised left (length vals) sum_vals, left)

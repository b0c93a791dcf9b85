-- ===== src/Statistics/Partition.antt =====
-- Every value has one class.
use altered_ccbench_fork.Common.{
  map, if◌then◌else◌, suc, ℕ, ◌+◌, ◌^◌, ◌<◌, ◌≡◌, arith, List, [], ◌∷◌, length, ap, ◌∙◌,
}
use altered_ccbench_fork.Statistics.Double.{Double}
use altered_ccbench_fork.Statistics.Deviation.{
  limited, same_class, Class, within_10p, within_25p, within_50p, within_75p, rest, deviation,
  class_of, get_abs_deviation,
}
use altered_ccbench_fork.Statistics.Buckets.{
  ClassOf, selected, get_abs_deviation-ClassOf, map-length,
}

abbrev pub over_classes : (Class → ℕ) → ℕ
over_classes f = f within_10p + f within_25p + f within_50p + f within_75p + f rest

count-cons :
    (own : Class) (f g : Class → ℕ)
    → ((c : Class) → f c ≡ (if same_class c own then suc (g c) else g c))
    → over_classes f ≡ suc (over_classes g)
count-cons within_10p f g h =
    omega (arith, h within_10p, h within_25p, h within_50p, h within_75p, h rest)
count-cons within_25p f g h =
    omega (arith, h within_10p, h within_25p, h within_50p, h within_75p, h rest)
count-cons within_50p f g h =
    omega (arith, h within_10p, h within_25p, h within_50p, h within_75p, h rest)
count-cons within_75p f g h =
    omega (arith, h within_10p, h within_25p, h within_50p, h within_75p, h rest)
count-cons rest f g h =
    omega (arith, h within_10p, h within_25p, h within_50p, h within_75p, h rest)

module _ {ℓ} {D : Type ℓ} ⦃d : Double D⦄ where
  selected-partition :
      (avg : D) (vs : List ℕ) → over_classes (λ c. length (selected avg c vs)) ≡ length vs
  selected-partition avg [] = omega arith
  selected-partition avg (v ∷ vs) =
      count-cons (class_of avg (deviation avg v)) (λ c. length (selected avg c (v ∷ vs)))
        (λ c. length (selected avg c vs)) (λ c. ground arith)
      ∙ ap suc (selected-partition avg vs)

num_dev_of-partition {ℓ} :
    (D : Type ℓ) ⦃d : Double D⦄ (vals : List ℕ)
    → length vals < 2 ^ 32
    → over_classes (get_abs_deviation {D = D} vals).0.num_dev_of ≡ length vals
num_dev_of-partition D ⦃d⦄ vals few =
    let (r, left) = get_abs_deviation {D = D} vals in
    let count = λ (c : Class). (get_abs_deviation-ClassOf {D = D} vals c few).1.num_dev_of in
    let same = (get_abs_deviation-ClassOf {D = D} vals rest few).0 in
    omega (
      arith,
      count within_10p,
      count within_25p,
      count within_50p,
      count within_75p,
      count rest,
      selected-partition r.avg left,
      ap length same,
      map-length vals,
    )

-- For fewer than 2 ^ 32 samples, of which those above 1500 are set to 0: the average is that of all
-- samples; for each class the count, the average, the absolute deviation and the standard deviation
-- are those of the samples whose distance from the average is in the class, taken alone; and the
-- counts of the five classes add up to the number of samples.
pub get_abs_deviation_lem {ℓ} :
    (D : Type ℓ) ⦃d : Double D⦄ (vals : List ℕ)
    → length vals < 2 ^ 32
    → let (r, left) = get_abs_deviation {D = D} vals in
      (left ≡ map limited vals)
      × ((c : Class) → ClassOf left c r)
      × (over_classes r.num_dev_of ≡ length vals)
get_abs_deviation_lem D ⦃d⦄ vals few = (
  (get_abs_deviation-ClassOf {D = D} vals rest few).0,
  λ c. (get_abs_deviation-ClassOf {D = D} vals c few).1,
  num_dev_of-partition D vals few,
)

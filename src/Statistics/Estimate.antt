-- ===== src/Statistics/Estimate.antt =====
-- The estimate of the cost of a reading is the median of the differences that are not 0.
use altered_ccbench_fork.Common.{
  ℕ, zero, suc, ◌+◌, ◌-◌, ◌/◌, ◌%◌, ◌^◌, ◌<◌, ◌≡◌, ◌∙◌, ◌⊎◌, inl, inr, refl, sym, ap, subst, arith,
  true, false, List, [], ◌∷◌, some, length, get_elem?, All, ◌==◌, Bool-cases,
}
use altered_ccbench_fork.Statistics.Double.{Double}
use altered_ccbench_fork.Statistics.Deviation.{zero_double}
use altered_ccbench_fork.Statistics.Median.{
  ticks_compare, qsort, non_zero, mean, middle_double, median_non_zero_ticks,
}
use altered_ccbench_fork.Statistics.Order.{
  Rank, qsort-Rank, length-qsort, All-qsort, All-get, get-some,
}
use altered_ccbench_fork.Statistics.Correction.{
  deltas, sample_count, rounded, estimate_median_rdtsc_delta,
}

-- Doubles hold the halves of the integers up to 2 ^ 53, a conversion to an integer cuts the fraction
-- off, and a NaN is not finite.
pub record IsRounding {ℓ} (D : Type ℓ) ⦃d : Double D⦄ : Type ℓ where
  pub nan_finite : d.is_finite d.nan ≡ false
  pub ticks_finite : (n : ℕ) → n < 2 ^ 52 → d.is_finite (d.of_ticks n) ≡ true
  pub mean_finite : (m n : ℕ) → m < 2 ^ 52 → n < 2 ^ 52 → d.is_finite (mean m n) ≡ true
  pub ticks_positive : (n : ℕ) → 0 < n → n < 2 ^ 52 → d.le (d.of_ticks n) zero_double ≡ false
  pub mean_positive :
      (m n : ℕ) → 0 < m → m < 2 ^ 52 → n < 2 ^ 52 → d.le (mean m n) zero_double ≡ false
  pub ticks_round : (n : ℕ) → n < 2 ^ 52 → d.to_ticks (d.plus (d.of_ticks n) d.half) ≡ n
  pub mean_round :
      (m n : ℕ) → m < 2 ^ 52 → n < 2 ^ 52 → d.to_ticks (d.plus (mean m n) d.half) ≡ (m + n + 1) / 2

-- `r` is the median of the differences that are not 0, rounded to the nearest integer and up, or 0
-- when there is none.
abbrev pub IsMedian : List ℕ → ℕ → Type 0
IsMedian ds r =
    let n = length (non_zero ds) in
    ((n ≡ 0) × (r ≡ 0))
    ⊎ ((0 < r)
        × (lower : ℕ) × (upper : ℕ) × Rank (non_zero ds) ((n - 1) / 2) lower
        × Rank (non_zero ds) (n / 2) upper
        × (r ≡ (lower + upper + 1) / 2))

Fits : ℕ → Type 0
Fits x = (0 < x) × (x < 2 ^ 52)

non_zero-Fits : (ds : List ℕ) → All (λ x. x < 2 ^ 52) ds → All Fits (non_zero ds)
unfolding non_zero Fits
non_zero-Fits [] all = tt
non_zero-Fits (x ∷ ds) (small, all) = ground (arith, non_zero-Fits ds all, small)

length-deltas : (ticks : ℕ → ℕ) (left readings : ℕ) → length (deltas ticks left readings) ≡ left
length-deltas ticks zero readings = refl
length-deltas ticks (suc left) readings = ap suc (length-deltas ticks left (readings + 2))

module _ {ℓ} (D : Type ℓ) ⦃d : Double D⦄ (rounding : IsRounding D) where
  rounded_of :
      (x : D) (n : ℕ)
      → d.is_finite x ≡ true
      → d.le x zero_double ≡ false
      → d.to_ticks (d.plus x d.half) ≡ n
      → 0 < n
      → rounded D x ≡ n
  unfolding rounded
  rounded_of x n finite more e at_least = rw (finite, more, e) (ground (arith, at_least))

  rounded_nan : rounded D d.nan ≡ 0
  unfolding rounded
  rounded_nan = rw (rounding.nan_finite) refl

  middle-even :
      (s : List ℕ) (lower upper : ℕ)
      → (length s % 2 == 0) ≡ true
      → get_elem? s (length s / 2 - 1) ≡ some lower
      → get_elem? s (length s / 2) ≡ some upper
      → middle_double {D = D} s ≡ some (mean lower upper)
  unfolding middle_double
  middle-even s lower upper even e e' = rw (even, e, e') refl

  middle-odd :
      (s : List ℕ) (middle : ℕ)
      → (length s % 2 == 0) ≡ false
      → get_elem? s (length s / 2) ≡ some middle
      → middle_double {D = D} s ≡ some (d.of_ticks middle)
  unfolding middle_double
  middle-odd s middle odd e = rw (odd, e) refl

  middle_double-Median :
      (vs : List ℕ)
      → 0 < length vs
      → All Fits vs
      → (x : D) × (lower : ℕ) × (upper : ℕ) × (middle_double (qsort ticks_compare vs) ≡ some x)
        × Rank vs ((length vs - 1) / 2) lower
        × Rank vs (length vs / 2) upper
        × (rounded D x ≡ (lower + upper + 1) / 2)
        × (0 < (lower + upper + 1) / 2)
  unfolding Fits
  middle_double-Median vs at_least all =
      let s = qsort ticks_compare vs in
      let len = length-qsort vs in
      let fits = All-qsort Fits vs all in
      let (upper, at_upper) = get-some s (length s / 2) (omega (arith, len)) in
      let (lower, at_lower) = get-some s (length s / 2 - 1) (omega (arith, len)) in
      let (more, small) = All-get Fits s (length s / 2) upper fits at_upper in
      let (more', small') = All-get Fits s (length s / 2 - 1) lower fits at_lower in
      let rank = qsort-Rank vs (length s / 2) upper at_upper in
      let rank' = qsort-Rank vs (length s / 2 - 1) lower at_lower in
      elim (Bool-cases (length s % 2 == 0)) [
        | inl even ↦ (
          mean lower upper,
          lower,
          upper,
          middle-even s lower upper even at_lower at_upper,
          subst (λ k. Rank vs k lower) (ground (arith, len, even, at_least)) rank',
          subst (λ k. Rank vs k upper) (omega (arith, len)) rank,
          rounded_of (mean lower upper) _ (rounding.mean_finite lower upper small' small)
              (rounding.mean_positive lower upper more' small' small)
              (rounding.mean_round lower upper small' small) (omega (arith, more, more')),
          omega (arith, more, more'),
        )
        | inr odd ↦ (
          d.of_ticks upper,
          upper,
          upper,
          middle-odd s upper odd at_upper,
          subst (λ k. Rank vs k upper) (ground (arith, len, odd, at_least)) rank,
          subst (λ k. Rank vs k upper) (omega (arith, len)) rank,
          rounded_of (d.of_ticks upper) upper (rounding.ticks_finite upper small)
                (rounding.ticks_positive upper more small) (rounding.ticks_round upper small) more
              ∙ omega arith,
          omega (arith, more),
        )
      ]

  rounded-IsMedian :
      (ds : List ℕ)
      → 0 < length ds
      → All (λ x. x < 2 ^ 52) ds
      → (x : D) × (median_non_zero_ticks {D = D} ds ≡ some x) × IsMedian ds (rounded D x)
  unfolding median_non_zero_ticks
  rounded-IsMedian ds at_least small =
      let filled : (length ds == 0) ≡ false = ground (arith, at_least) in
      elim (Bool-cases (length (non_zero ds) == 0)) [
        | inl empty ↦ (d.nan, rw (filled, empty) refl, inl (ground (arith, empty), rounded_nan))
        | inr some_left ↦
            let (x, lower, upper, e, rank', rank, round, more) =
              middle_double-Median (non_zero ds) (ground (arith, some_left))
                (non_zero-Fits ds small) in
            (
              x,
              rw (filled, some_left) e,
              inr (subst (λ r. 0 < r) (sym round) more, lower, upper, rank', rank, round),
            )
      ]

-- With doubles that hold the halves of the integers up to 2 ^ 53, at least one entry and differences
-- below 2 ^ 52, `estimate_median_rdtsc_delta` returns the rounded median of the differences that are
-- not 0, or 0 when there is none.
pub estimate_median_rdtsc_delta-IsMedian {ℓ} :
    (D : Type ℓ) ⦃d : Double D⦄ (ticks : ℕ → ℕ) (readings num_entries : ℕ)
    → IsRounding D
    → 0 < num_entries
    → let ds = deltas ticks (sample_count num_entries) readings in
      All (λ x. x < 2 ^ 52) ds
      → (r : ℕ) × (estimate_median_rdtsc_delta D ticks readings num_entries ≡ some r)
        × IsMedian ds r
unfolding estimate_median_rdtsc_delta
estimate_median_rdtsc_delta-IsMedian D ⦃d⦄ ticks readings num_entries rounding at_least small =
    let ds = deltas ticks (sample_count num_entries) readings in
    let len = length-deltas ticks (sample_count num_entries) readings in
    let filled : (num_entries == 0) ≡ false = ground (arith, at_least) in
    let (x, e, median) = rounded-IsMedian D rounding ds (ground (arith, len, at_least)) small in
    (rounded D x, rw (filled, e) refl, median)

-- ===== src/Tests/Samples.antt =====
-- The theorems on the statistics at concrete inputs: five samples, of which one is too large, and a
-- counter that advances by 3 and 5 in turns.
use altered_ccbench_fork.Common.{
  ℕ, ◌+◌, ◌*◌, ◌%◌, ◌<◌, ◌≤◌, ◌≡◌, refl, arith, List, [], ◌∷◌, none, some, map, length, All,
}
use altered_ccbench_fork.Statistics.Deviation.{
  Class, limited, limit_vals, extend, add_val, add_vals, summarised, get_abs_deviation,
}
use altered_ccbench_fork.Statistics.Buckets.{ClassOf}
use altered_ccbench_fork.Statistics.Partition.{over_classes, get_abs_deviation_lem}
use altered_ccbench_fork.Statistics.Extremes.{
  largest, least, not_records, or_dbl_max, Position, get_abs_deviation-extremes,
}
use altered_ccbench_fork.Statistics.Correction.{
  Global, ThreadLocal, deltas, sample_count, measure_minimum_tick_delta,
  estimate_median_rdtsc_delta, init_threads,
}
use altered_ccbench_fork.Statistics.Delta.{Measured, measure_minimum_tick_delta-Measured}
use altered_ccbench_fork.Statistics.Estimate.{IsMedian, estimate_median_rdtsc_delta-IsMedian}
use altered_ccbench_fork.Statistics.Shared.{IsReady, HasCorrection, init_threads-shared}
use altered_ccbench_fork.Tests.Doubles.{
  Twentieths, twentieths, twentieths-IsExact, twentieths-IsRounding,
}

abbrev samples : List ℕ
samples = 100 ∷ 102 ∷ 2000 ∷ 98 ∷ 100 ∷ []

-- A rising run: every value is a new maximum, and the minimum stays DBL_MAX.
rising_minimum :
    (get_abs_deviation {D = Twentieths} (5 ∷ 7 ∷ 9 ∷ [])).0.min_val ≡ twentieths.dbl_max
unfolding get_abs_deviation limit_vals limited summarised add_vals add_val extend
rising_minimum = refl

get_abs_deviation_lem_example :
    let (r, left) = get_abs_deviation {D = Twentieths} samples in
    (left ≡ map limited samples)
    × ((c : Class) → ClassOf left c r)
    × (over_classes r.num_dev_of ≡ length samples)
get_abs_deviation_lem_example = get_abs_deviation_lem Twentieths samples (omega arith)

get_abs_deviation-extremes_example :
    let (r, left) = get_abs_deviation {D = Twentieths} samples in
    let top = largest 0 left in
    (left ≡ map limited samples)
    × All (λ v. v ≤ top) left
    × (r.max_val ≡ twentieths.of_ticks top)
    × Position 0 left 0 0 r.max_val_idx top
    × (r.min_val ≡ or_dbl_max (least none (not_records 0 left)))
get_abs_deviation-extremes_example =
    get_abs_deviation-extremes Twentieths samples twentieths-IsExact (omega arith)

-- The n-th reading.
abbrev counter : ℕ → ℕ
counter n = 4 * n + n % 2

measure_minimum_tick_delta-Measured_example :
    Measured (deltas counter 3 0) (measure_minimum_tick_delta counter 0 3)
measure_minimum_tick_delta-Measured_example = measure_minimum_tick_delta-Measured counter 0 3

estimate_median_rdtsc_delta-IsMedian_example :
    (r : ℕ) × (estimate_median_rdtsc_delta Twentieths counter 0 3 ≡ some r)
    × IsMedian (deltas counter (sample_count 3) 0) r
estimate_median_rdtsc_delta-IsMedian_example =
    estimate_median_rdtsc_delta-IsMedian Twentieths counter 0 3 twentieths-IsRounding (omega arith)
      (omega arith, (omega arith, (omega arith, tt)))

abbrev unset : Global
unset = record { global_pfd_correction = 0; global_pfd_num_entries = 0; readings = 0 }

abbrev fresh : ℕ → ThreadLocal
fresh rank = record { store_entries = none; pfd_correction = 1 }

init_threads-shared_example :
    (g' : Global) × (threads' : ℕ → ThreadLocal) × (init_threads Twentieths counter 3
        (1 ∷ 0 ∷ [])
        unset
        fresh
      ≡ some (g', threads'))
    × (0 < g'.global_pfd_correction)
    × All (HasCorrection g' threads') (1 ∷ 0 ∷ [])
    × (IsReady 3 unset → g' ≡ unset)
init_threads-shared_example =
    init_threads-shared Twentieths counter 3 1 (0 ∷ []) unset fresh (omega arith)

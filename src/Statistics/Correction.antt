-- ===== src/Statistics/Correction.antt =====
-- `measure_minimum_tick_delta`, `estimate_median_rdtsc_delta`, `allocate_thread_local_store` and
-- `pfd_store_init`. `ticks n` is the n-th reading of the cycle counter; `pfd_store_init` holds a mutex
-- from its first to its last reading. The call of `estimate_median_rdtsc_delta` lacks its second
-- argument, through which only the number of samples would be returned.
use altered_ccbench_fork.Common.{
  update, ℕ, zero, suc, ◌+◌, ◌*◌, ◌-◌, ◌^◌, not, ◌||◌, ◌&&◌, List, [], ◌∷◌, Option, none, some,
  if◌then◌else◌, ltb, ◌==◌,
}
use altered_ccbench_fork.Machine.{u64}
use altered_ccbench_fork.Statistics.Double.{Double}
use altered_ccbench_fork.Statistics.Deviation.{zero_double}
use altered_ccbench_fork.Statistics.Median.{median_non_zero_ticks, ◌>>=◌}

-- `end - start` of two readings in a row.
abbrev pub tick_delta : (ℕ → ℕ) → ℕ → ℕ
tick_delta ticks n = u64 (u64 (ticks (n + 1)) + 2 ^ 64 - u64 (ticks n))

-- The differences that so many rounds find, from the reading `readings` on.
abbrev pub deltas : (ℕ → ℕ) → ℕ → ℕ → List ℕ
deltas ticks zero readings = []
deltas ticks (suc left) readings = tick_delta ticks readings ∷ deltas ticks left (readings + 2)

unfoldable pub least_delta : List ℕ → ℕ → ℕ
least_delta [] best = best
least_delta (delta ∷ later) best =
    least_delta later (if ltb 0 delta && ltb delta best then delta else best)

unfoldable pub measure_minimum_tick_delta : (ℕ → ℕ) → ℕ → ℕ → ℕ
unfolding least_delta
measure_minimum_tick_delta ticks readings attempts =
    let best = least_delta (deltas ticks attempts readings) (2 ^ 64 - 1) in
    if best == 2 ^ 64 - 1 then 0 else best

abbrev pub sample_count : ℕ → ℕ
sample_count num_entries = if ltb num_entries 1024 then num_entries else 1024

-- The state behind `pfd_correction_mutex`.
pub record Global : Type 0 where
  pub global_pfd_correction : ℕ
  pub global_pfd_num_entries : ℕ
  pub readings : ℕ

-- The thread-local variables; `store_entries` is the size of the stores, once they are allocated.
pub record ThreadLocal : Type 0 where
  pub store_entries : Option ℕ
  pub pfd_correction : ℕ

abbrev pub allocate_thread_local_store : ℕ → Option ℕ → Option ℕ
allocate_thread_local_store num_entries none = some num_entries
allocate_thread_local_store num_entries (some n) = some n

module _ {ℓ} (D : Type ℓ) ⦃d : Double D⦄ where
  -- The correction of a median.
  unfoldable pub rounded : D → ℕ
  rounded median =
      if not (d.is_finite median) || d.le median zero_double
      then 0
      else (let correction = d.to_ticks (d.plus median d.half) in
          if correction == 0 then 1 else correction)

  unfoldable pub estimate_median_rdtsc_delta : (ℕ → ℕ) → ℕ → ℕ → Option ℕ
  unfolding median_non_zero_ticks rounded
  estimate_median_rdtsc_delta ticks readings num_entries = if num_entries == 0 then some 0 else (do
    median ← median_non_zero_ticks {D = D} (deltas ticks (sample_count num_entries) readings)
    some (rounded median))

  -- `(ticks) (PFD_CONSERVATIVE_DEFAULT + 0.5)`
  abbrev pub conservative : ℕ
  conservative =
      let correction = d.to_ticks (d.plus (d.of_ticks 32) d.half) in
      if correction == 0 then 1 else correction

  -- Where the median is not available.
  unfoldable pub fallback : (ℕ → ℕ) → ℕ → ℕ → ℕ
  unfolding measure_minimum_tick_delta
  fallback ticks readings correction =
      let measured = measure_minimum_tick_delta ticks readings 512 in
      if correction == 0 then (if measured == 0 then conservative else measured) else correction

  -- The body of the critical section.
  unfoldable pub settle : (ℕ → ℕ) → ℕ → Global → Option Global
  unfolding estimate_median_rdtsc_delta fallback
  settle ticks num_entries g =
      if g.global_pfd_correction == 0 || not (g.global_pfd_num_entries == num_entries)
      then (do
        estimated ← estimate_median_rdtsc_delta ticks g.readings num_entries
        let readings = g.readings + 2 * sample_count num_entries
        some (record {
          global_pfd_correction = fallback ticks readings estimated;
          global_pfd_num_entries = num_entries;
          readings = if estimated == 0 then readings + 2 * 512 else readings;
        }))
      else some g

  unfoldable pub pfd_store_init : (ℕ → ℕ) → ℕ → Global → ThreadLocal → Option (Global × ThreadLocal)
  pfd_store_init ticks num_entries g t =
      if num_entries == 0 then some (g, record t { pfd_correction = 1 }) else (do
        g' ← settle ticks num_entries g
        some (
          g',
          record {
            store_entries = allocate_thread_local_store num_entries t.store_entries;
            pfd_correction = if g'.global_pfd_correction == 0 then 1 else g'.global_pfd_correction;
          },
        ))

  -- The threads call it one after another, in the order that the mutex gives.
  unfoldable pub init_threads :
      (ℕ → ℕ) → ℕ → List ℕ → Global → (ℕ → ThreadLocal) → Option (Global × (ℕ → ThreadLocal))
  init_threads ticks num_entries [] g threads = some (g, threads)
  init_threads ticks num_entries (rank ∷ ranks) g threads = do
    (g', t) ← pfd_store_init ticks num_entries g (threads rank)
    init_threads ticks num_entries ranks g' (update threads rank t)

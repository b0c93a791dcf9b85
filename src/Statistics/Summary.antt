-- ===== src/Statistics/Summary.antt =====
-- `pfd_collect_abs_deviation` of src/pfd.c, and in src/ccbench.c `collect_core_stats` and the summary
-- over the cores at the end of `run_worker`. A thread's `pfd_store` is a list for each store.
use altered_ccbench_fork.Common.{
  ℕ, zero, suc, ◌+◌, Bool, true, ◌&&◌, List, [], ◌∷◌, ◌++◌, Option, none, some, if◌then◌else◌, ltb,
  update,
}
use altered_ccbench_fork.Machine.{Config, u32}
use altered_ccbench_fork.Worker.Event.{Event}
use altered_ccbench_fork.Worker.Program.{
  Action, call, barrier, init_samples, collect, summary, collected,
}
use altered_ccbench_fork.Statistics.Double.{Double}
use altered_ccbench_fork.Statistics.Deviation.{AbsDeviation, get_abs_deviation, zero_double}

abbrev pub pfd_num_stores : ℕ
pfd_num_stores = 2

pub record CoreSummary {ℓ} (D : Type ℓ) : Type ℓ where
  pub store : ℕ → AbsDeviation D
  pub store_valid : ℕ → Bool

-- What the threads share and keep: `core_summaries`, `none` for NULL and `MAP_FAILED`, and the
-- `pfd_store` of each rank.
pub record Collection {ℓ} (D : Type ℓ) : Type ℓ where
  pub core_summaries : Option (ℕ → CoreSummary D)
  pub pfd_store : ℕ → ℕ → List ℕ

unfoldable pub take : List ℕ → ℕ → List ℕ
take [] n = []
take (v ∷ vs) zero = []
take (v ∷ vs) (suc n) = v ∷ take vs n

unfoldable pub drop : List ℕ → ℕ → List ℕ
drop [] n = []
drop (v ∷ vs) zero = v ∷ vs
drop (v ∷ vs) (suc n) = drop vs n

module _ {ℓ} {D : Type ℓ} ⦃d : Double D⦄ where
  -- The values that are printed, the statistics, and the store as `get_abs_deviation` leaves it.
  unfoldable pub pfd_collect_abs_deviation : List ℕ → ℕ → ℕ → List ℕ × AbsDeviation D × List ℕ
  unfolding get_abs_deviation take drop
  pfd_collect_abs_deviation vals num_vals num_print =
      let p = if ltb num_vals num_print then num_vals else num_print in
      let (stats, left) = get_abs_deviation (take vals num_vals) in
      (take vals p, stats, left ++ drop vals num_vals)

  abbrev pub core_with : CoreSummary D → ℕ → AbsDeviation D → CoreSummary D
  core_with core store stats = record {
    store = update core.store store stats;
    store_valid = update core.store_valid store true;
  }

  -- The body of the test `ID < test_cores && store < PFD_NUM_STORES`.
  unfoldable pub recorded : ℕ → ℕ → ℕ → AbsDeviation D → (ℕ → CoreSummary D) → ℕ → CoreSummary D
  recorded test_cores id store stats cores =
      if ltb id test_cores && ltb store pfd_num_stores
      then update cores id (core_with (cores id) store stats)
      else cores

  abbrev pub record_in :
      ℕ → ℕ → ℕ → AbsDeviation D → Option (ℕ → CoreSummary D) → Option (ℕ → CoreSummary D)
  record_in test_cores id store stats none = none
  record_in test_cores id store stats (some cores) = some (recorded test_cores id store stats cores)

  unfoldable pub collect_core_stats : ℕ → ℕ → ℕ → ℕ → ℕ → ℕ → Collection D → Collection D
  unfolding pfd_collect_abs_deviation recorded
  collect_core_stats test_cores rank id store num_vals num_print s =
      let vals = s.pfd_store rank store in
      let (printed, stats, left) = pfd_collect_abs_deviation vals num_vals num_print in
      record {
        core_summaries = record_in test_cores id store stats s.core_summaries;
        pfd_store = update s.pfd_store rank (update (s.pfd_store rank) store left);
      }

  -- The statements of a turn. `test_print` is 0 unless the option `verbose` is given.
  unfoldable pub turn : Config → ℕ → ℕ → ℕ → List Action → Collection D → Collection D
  unfolding collect_core_stats
  turn c rank id num_print [] s = s
  turn c rank id num_print (collect store ∷ p) s =
      turn c rank id num_print p
        (collect_core_stats c.test_cores rank id store c.test_reps num_print s)
  turn c rank id num_print (call _ ∷ p) s = turn c rank id num_print p s
  turn c rank id num_print (barrier _ ∷ p) s = turn c rank id num_print p s
  turn c rank id num_print (init_samples ∷ p) s = turn c rank id num_print p s
  turn c rank id num_print (summary ∷ p) s = turn c rank id num_print p s

  -- `for (id = 0; id < test_cores; id++)`, with `left` rounds to go, for at most 256 threads: in
  -- round `id` the thread of rank `id` collects, and B0 parts the rounds.
  unfoldable pub all_turns : Config → Event → ℕ → ℕ → ℕ → Collection D → Collection D
  unfolding turn
  all_turns c e num_print zero id s = s
  all_turns c e num_print (suc left) id s =
      all_turns c e num_print left (id + 1) (turn c id id num_print (collected c id e) s)

  -- The statistics in the first valid store, from store `store_idx` on, with `left` rounds to go.
  unfoldable pub first_valid : CoreSummary D → ℕ → ℕ → Option (AbsDeviation D)
  first_valid core zero store_idx = none
  first_valid core (suc left) store_idx =
      let later = first_valid core left (store_idx + 1) in
      if core.store_valid store_idx then some (core.store store_idx) else later

-- The variables of the loop over the cores.
pub record Totals {ℓ} (D : Type ℓ) : Type ℓ where
  pub min_avg : D
  pub max_avg : D
  pub sum_avg : D
  pub min_core : ℕ
  pub max_core : ℕ
  pub cores_with_stats : ℕ

-- What core 0 prints at the end.
pub data Report {ℓ} (D : Type ℓ) : Type ℓ where
  no_statistics : Report D
  summary_of : (mean_avg min_avg : D) → (min_core : ℕ) → (max_avg : D) → (max_core : ℕ) → Report D

module _ {ℓ} {D : Type ℓ} ⦃d : Double D⦄ where
  abbrev pub initial_totals : Totals D
  initial_totals = record {
    min_avg = d.dbl_max;
    max_avg = zero_double;
    sum_avg = zero_double;
    min_core = 0;
    max_core = 0;
    cores_with_stats = 0;
  }

  -- The end of the loop's body, for a core `core` with the average `avg`.
  unfoldable pub add_core : ℕ → D → Totals D → Totals D
  add_core core avg t =
      let low = d.lt avg t.min_avg in
      let high = d.lt t.max_avg avg in
      record {
        min_avg = if low then avg else t.min_avg;
        max_avg = if high then avg else t.max_avg;
        sum_avg = d.plus t.sum_avg avg;
        min_core = if low then core else t.min_core;
        max_core = if high then core else t.max_core;
        cores_with_stats = u32 (t.cores_with_stats + 1);
      }

  abbrev pub add_stats : ℕ → Option (AbsDeviation D) → Totals D → Totals D
  unfolding add_core
  add_stats core none t = t
  add_stats core (some stats) t = add_core core stats.avg t

  -- `for (core_idx = 0; core_idx < test_cores; core_idx++)`, with `left` rounds to go.
  unfoldable pub add_cores : (ℕ → ℕ) → (ℕ → CoreSummary D) → ℕ → ℕ → Totals D → Totals D
  unfolding first_valid add_core
  add_cores test_cores_array summaries zero core_idx t = t
  add_cores test_cores_array summaries (suc left) core_idx t =
      add_cores test_cores_array summaries left (core_idx + 1) (
        add_stats (test_cores_array core_idx) (first_valid (summaries core_idx) pfd_num_stores 0) t)

  unfoldable pub reported : Totals D → Report D
  reported t =
      if ltb 0 t.cores_with_stats
      then summary_of (d.over t.sum_avg (d.of_ticks t.cores_with_stats)) t.min_avg t.min_core
          t.max_avg t.max_core
      else no_statistics

  unfoldable pub cross_core_summary : ℕ → (ℕ → ℕ) → (ℕ → CoreSummary D) → Report D
  unfolding add_cores reported
  cross_core_summary test_cores test_cores_array summaries =
      reported (add_cores test_cores_array summaries test_cores 0 initial_totals)

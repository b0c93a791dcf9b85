-- ===== src/Worker/Program/Statement.antt =====
-- One statement of a thread: a call of an operation on `cache_line`, or one of the barriers B0 to
-- B10 with the number that it passes to `barrier_wait`.
use altered_ccbench_fork.Common.{ℕ, List, [], ◌∷◌, if◌then◌else◌}
use altered_ccbench_fork.Machine.{Config, Fence}

-- The result of an operation that returns one is added to `sum`.
pub data Call : Type 0 where
  store_0 store_0_no_pf store_0_eventually store_0_eventually_pfd1 : Call
  load_0_eventually load_0_eventually_no_pf load_0 load_next invalidate : Call
  cas cas_no_pf cas_0_eventually fai tas swap : Call
  write_word : ℕ → Call  -- `cache_line->word[0] = v`
  full_fence : Call  -- `_mm_mfence()`
  flush_line : Call  -- `_mm_clflush((void*) cache_line)`
  next_lines : Call  -- `cache_line += test_stride`
  profile : List Fence → Call  -- the fences between `PFDI(0)` and `PFDO(0, reps)`

pub data Action : Type 0 where
  call : Call → Action
  barrier : ℕ → Action
  init_samples : Action  -- `PFDINIT(test_reps)`
  collect : ℕ → Action  -- `collect_core_stats(store, test_reps, test_print)`
  summary : Action  -- the cross-core summary that core 0 prints

abbrev pub b0 : Action
b0 = barrier 0

abbrev pub b1 : Action
b1 = barrier 2

abbrev pub b2 : Action
b2 = barrier 3

abbrev pub b3 : Action
b3 = barrier 4

abbrev pub b10 : Action
b10 = barrier 11

-- `if (!test_flush) { cache_line += test_stride; }`
abbrev pub step_lines : Config → List Action
step_lines c = if c.test_flush then [] else call next_lines ∷ []

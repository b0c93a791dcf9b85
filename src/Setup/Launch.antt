-- ===== src/Setup/Launch.antt =====
-- The threads as `main` and the head of `run_worker` start them, over the lines as
-- `cache_line_open` leaves them.
use altered_ccbench_fork.Common.{ℕ, ◌^◌, ◌<◌, ◌≤◌, ◌≡◌, false, some, arith, refl, []}
use altered_ccbench_fork.Random.{Seeds}
use altered_ccbench_fork.Machine.{Config, Local, Lines}
use altered_ccbench_fork.Access.Rounds.{IsLively}
use altered_ccbench_fork.Worker.Program.{id_of_rank}
use altered_ccbench_fork.Worker.Round.{Team}
use altered_ccbench_fork.Worker.Outcome.Runs.{Start}
use altered_ccbench_fork.Setup.{Options, configure, is_mem_size, zero_lines}
use altered_ccbench_fork.Setup.Ranges.{zero_lines_lem, configure-InRange}

-- The variables of the thread of rank `rank`, with the seeds that `seed_rand` returned.
abbrev pub worker : (ℕ → Seeds) → ℕ → Local
worker seeds rank = record {
  id = id_of_rank rank;
  seeds = seeds rank;
  readings = 0;
  pfd_s = λ s. 0;
  pfd_store = λ s e. 0;
  cache_line = 0;
  sum = 0;
  fences = [];
}

abbrev pub launch : Config → (ℕ → Seeds) → Lines → Team
launch c seeds w = record {
  programs = λ i. [];
  locals = worker seeds;
  lines = zero_lines c.test_cache_line_num 0 w;
}

-- When `main` accepts the options of a test other than LOAD_FROM_MEM_SIZE, with 2 to 256 cores,
-- a stride from 1 to 2 ^ 32 - 1 and seeds from which the generators of cores 0 and 1 draw 0
-- within the fuel, the threads start as the theorems on whole tests ask: on the first line, which
-- holds 0, with nothing summed, with the `test_stride` lines from the first one on mapped, and
-- with the sample of every repetition allocated.
pub launch-Start :
    (o : Options) (pfd_correction : ℕ) (ticks : ℕ → ℕ) (fuel base : ℕ) (c : Config)
    (seeds : ℕ → Seeds) (w : Lines)
    → configure o pfd_correction ticks fuel base ≡ some c
    → 1 ≤ o.test_stride
    → o.test_stride < 2 ^ 32
    → is_mem_size o.test_test ≡ false
    → 2 ≤ o.test_cores
    → o.test_cores ≤ 2 ^ 8
    → 0 < c.test_reps
    → IsLively c (seeds 0)
    → IsLively c (seeds 1)
    → Start c o.test_cores 0 0 (launch c seeds w)
launch-Start o k ticks fuel base c seeds w accepted pos small other two few runs lively0 lively1 =
    let range = configure-InRange o k ticks fuel base c accepted pos small other in
    let first = range 0 runs in
    record {
      two = two;
      few = few;
      range = range;
      zeroth = record { line = refl; total = refl; lively = lively0 };
      oneth = record { line = refl; total = refl; lively = lively1 };
      word = ground (arith, zero_lines_lem c.test_cache_line_num 0 w 0, first.room, first.pos);
    }

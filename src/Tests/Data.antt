-- ===== src/Tests/Data.antt =====
-- A small run: two threads over four lines that hold 5, 6, 7 and 8, with stride 1 and two
-- repetitions.
use altered_ccbench_fork.Common.{ℕ, ◌+◌, ◌*◌, ◌<◌, arith, refl, true, []}
use altered_ccbench_fork.Random.{Seeds}
use altered_ccbench_fork.Machine.{Config, Local, Lines}
use altered_ccbench_fork.Access.Rounds.{IsLively, IsLively-one}
use altered_ccbench_fork.Access.Sequential.{InRange}

abbrev pub config : Config
config = record {
  test_cores = 2;
  test_reps = 2;
  test_flush = true;
  test_stride = 1;
  test_ao_success = true;
  test_cache_line_num = 4;
  test_lfence = 0;
  test_sfence = 0;
  pfd_correction = 24;
  ticks = λ n. 100 * n;
  fuel = 1;
  base = 0;
}

abbrev pub seeds : Seeds
seeds = record { x = 123456789; y = 362436069; z = 521288629 }

abbrev pub thread : ℕ → Local
thread i = record {
  id = i;
  seeds = seeds;
  readings = 0;
  pfd_s = λ s. 0;
  pfd_store = λ s e. 0;
  cache_line = 1;
  sum = 0;
  fences = [];
}

abbrev pub lines : Lines
lines i = i + 5

pub lively : (i : ℕ) → IsLively config (thread i).seeds
lively i = IsLively-one config seeds refl (omega arith)

pub in_range : (reps : ℕ) → reps < 2 → InRange config 1 reps
in_range reps lt = record {
  pos = omega arith;
  small = omega arith;
  room = omega arith;
  sample = lt;
}

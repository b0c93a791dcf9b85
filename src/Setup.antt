-- ===== src/Setup.antt =====
-- src/ccbench.c: what `main` does between the parsing of the options and the start of the threads,
-- and the zeroing of the lines in `cache_line_open`.
pub mod Ranges
pub mod Launch
pub mod FromOptions
pub mod Threads
pub mod Whole
use altered_ccbench_fork.Common.{
  ◌==◌, ℕ, zero, suc, ◌+◌, ◌*◌, ◌/◌, ◌<◌, ◌≤◌, Bool, true, false, if◌then◌else◌, ltb, leb, ◌&&◌,
  Option, some, none, update,
}
use altered_ccbench_fork.Random.{pow2roundup}
use altered_ccbench_fork.Machine.{Config, Lines, u32}
use altered_ccbench_fork.Worker.Event.{Event}
use altered_ccbench_fork.Worker.Event

-- The `test_*` variables after the options are parsed.
pub record Options : Type 0 where
  pub test_test : Event
  pub test_cores : ℕ
  pub test_reps : ℕ
  pub test_stride : ℕ
  pub test_fence : ℕ
  pub test_mem_size : ℕ
  pub test_flush : Bool
  pub test_ao_success : Bool

-- `switch (test_fence)`: `test_lfence` and `test_sfence`.
unfoldable pub fence_levels : ℕ → ℕ × ℕ
fence_levels f =
    if f == 1
    then (1, 1)
    else if f == 2
    then (2, 2)
    else if f == 3
    then (1, 0)
    else if f == 4
    then (0, 1)
    else if f == 5
    then (2, 0)
    else if f == 6
    then (0, 2)
    else if f == 7
    then (2, 1)
    else if f == 8
    then (1, 2)
    else if f == 9
    then (0, 3)
    else (0, 0)

-- The tests whose strides are checked for all repetitions.
unfoldable pub is_checked : Event → Bool
is_checked Event.store_on_exclusive = true
is_checked Event.store_on_invalid = true
is_checked Event.load_from_invalid = true
is_checked Event.load_from_exclusive = true
is_checked Event.load_from_shared = true
is_checked _ = false

unfoldable pub is_mem_size : Event → Bool
is_mem_size Event.load_from_mem_size = true
is_mem_size _ = false

-- The condition of the two assertions.
unfoldable pub asserted : Event → Bool → ℕ → ℕ → ℕ → Bool
asserted e flush reps stride lines =
    (if is_checked e && (if flush then false else true)
      then leb (u32 (reps * stride)) lines
      else true)
    && (if is_mem_size e then true else ltb stride lines)

-- The variables as `main` leaves them. The correction, the cycle counter, the fuel and the address
-- of the lines come from elsewhere.
abbrev pub settings : Options → ℕ → (ℕ → ℕ) → ℕ → ℕ → Config
settings o pfd_correction ticks fuel base = record {
  test_cores = o.test_cores;
  test_reps = o.test_reps;
  test_flush = o.test_flush;
  test_stride = o.test_stride;
  test_ao_success = o.test_ao_success;
  test_cache_line_num = u32 (o.test_mem_size / 64);
  test_lfence = (fence_levels o.test_fence).0;
  test_sfence = (fence_levels o.test_fence).1;
  pfd_correction = pfd_correction;
  ticks = ticks;
  fuel = fuel;
  base = base;
}

-- From the assignment of `test_cache_line_num` to the end of the `switch`; `none` when an assertion
-- fails.
unfoldable pub configure : Options → ℕ → (ℕ → ℕ) → ℕ → ℕ → Option Config
configure o pfd_correction ticks fuel base =
    if asserted o.test_test o.test_flush o.test_reps o.test_stride (u32 (o.test_mem_size / 64))
    then some (settings o pfd_correction ticks fuel base)
    else none

-- `for (cl = 0; cl < test_cache_line_num; cl++) cache_line[cl].word[0] = 0;`, with `left` rounds to
-- go.
unfoldable pub zero_lines : ℕ → ℕ → Lines → Lines
zero_lines zero cl w = w
zero_lines (suc left) cl w = zero_lines left (cl + 1) (update w cl 0)

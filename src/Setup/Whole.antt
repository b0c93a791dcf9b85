-- ===== src/Setup/Whole.antt =====
-- From the options to what the test CAS measures.
use altered_ccbench_fork.Common.{
  ℕ, ◌%◌, ◌^◌, ◌<◌, ◌≤◌, ◌≡◌, refl, sym, ◌∙◌, lt→ltb, false, some, List, Text,
}
use altered_ccbench_fork.Random.{Seeds}
use altered_ccbench_fork.Machine.{Config, Lines}
use altered_ccbench_fork.Access.Rounds.{IsLively}
use altered_ccbench_fork.Barrier.{Barrier}
use altered_ccbench_fork.Barrier.Init.{barriers_init, barriers_init_lem, num_barriers}
use altered_ccbench_fork.Barrier.System
use altered_ccbench_fork.Worker.Event
use altered_ccbench_fork.Worker.Interleaved.{State, Quiet}
use altered_ccbench_fork.Worker.Interleaved.Runs.{Runs}
use altered_ccbench_fork.Worker.Interleaved.Results.{cas_outcome}
use altered_ccbench_fork.CommandLine.Result.{ok}
use altered_ccbench_fork.CommandLine.Cores.{Cores}
use altered_ccbench_fork.CommandLine.Options.{Settings}
use altered_ccbench_fork.Setup.{configure, is_mem_size}
use altered_ccbench_fork.Setup.Launch.{launch}
use altered_ccbench_fork.Setup.FromOptions.{read_options, event_of, options_of, read_options-Start}

-- The threads before their first repetition, with every barrier initialised for `n` threads.
abbrev pub start_state : Config → ℕ → (ℕ → Seeds) → Lines → State
start_state c n seeds w = record { team = launch c seeds w; barriers = λ b. System.init n }

abbrev pub no_calls : ℕ → ℕ
no_calls b = 0

pub start_state-Quiet :
    (c : Config) (n : ℕ) (seeds : ℕ → Seeds) (w : Lines)
    → Quiet n no_calls (start_state c n seeds w)
start_state-Quiet c n seeds w = record {
  reached = λ b. System.start;
  out = λ b i lt. refl;
  even = λ b i lt. refl;
}

-- The barriers that `barriers_init` makes are those of the start.
start_state-barriers :
    (c : Config) (n : ℕ) (seeds : ℕ → Seeds) (w : Lines) (memory : ℕ → Barrier) (b : ℕ)
    → n < 2 ^ 32
    → b < num_barriers
    → ((start_state c n seeds w).barriers b).bar ≡ barriers_init n memory b
start_state-barriers c n seeds w memory b small lt =
    sym (barriers_init_lem n memory b small ∙ rw (lt→ltb b num_barriers lt) refl)

cas_other : is_mem_size Event.cas ≡ false
unfolding is_mem_size
cas_other = refl

-- When `main` accepts the options of the test CAS and its assertions hold, with 2 to
-- 256 cores, 1 to 2^64 - 1 repetitions, a stride that is not 0, and seeds from which the
-- generators of cores 0 and 1 draw 0 within the fuel: in every run of the threads from barriers as
-- `barriers_init` leaves them, with every shared access of `barrier_wait` interleaved,
-- `cas_0_eventually` always succeeds on core 0 and always fails on core 1: after `k` repetitions the
-- sums are `k` and 0, and the first line holds the parity of `k`.
pub cas_from_options :
    (given : List (ℕ × Text)) (memory : ℕ → ℕ) (s : Settings Cores) (pfd_correction : ℕ)
    (ticks : ℕ → ℕ) (fuel base : ℕ) (c : Config) (seeds : ℕ → Seeds) (w : Lines) (k : ℕ) (f : State)
    → read_options given memory ≡ ok s
    → event_of s.test_test ≡ some Event.cas
    → configure (options_of Event.cas s) pfd_correction ticks fuel base ≡ some c
    → 0 < s.test_stride
    → 2 ≤ s.cores.test_cores
    → s.cores.test_cores ≤ 2 ^ 8
    → 0 < c.test_reps
    → c.test_reps < 2 ^ 64
    → IsLively c (seeds 0)
    → IsLively c (seeds 1)
    → Runs c s.cores.test_cores Event.cas (start_state c s.cores.test_cores seeds w) k f
    → k ≤ c.test_reps
    → ((f.team.locals 0).sum ≡ k) × ((f.team.locals 1).sum ≡ 0) × (f.team.lines 0 ≡ k % 2)
cas_from_options given memory s p ticks fuel base c seeds w k f read event accepted stride two few
      runs big lively0 lively1 run le =
    cas_outcome big
      (read_options-Start given memory s Event.cas p ticks fuel base c seeds w read event accepted
        stride cas_other two few runs lively0 lively1)
      (start_state-Quiet c s.cores.test_cores seeds w) run le

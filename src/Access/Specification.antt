-- ===== src/Access/Specification.antt =====
-- A specification for the measured operations that return a value, as atomic operations on the line
-- that `cl` points to.
use altered_ccbench_fork.Common.{ℕ, ◌+◌, ◌-◌, ◌%◌, ◌≤◌, ◌≡◌, if◌then◌else◌, ◌==◌}
use altered_ccbench_fork.Machine.{Config, M, Local, Lines, u32}
use altered_ccbench_fork.Access.Atomic.{
  cas_0_eventually, fai, tas, swap, expected, replacement, truth,
}
use altered_ccbench_fork.Access.Load.{load_0_eventually}
use altered_ccbench_fork.Access.Rounds.{Returns, IsLively}
use altered_ccbench_fork.Access.Sequential.{InRange, Frame}
use altered_ccbench_fork.Access.Results.{cas_0_eventually_lem, fai_lem, tas_lem, swap_lem}
use altered_ccbench_fork.Access.Transfers.{load_0_eventually_lem}

pub data Operation : Type 0 where
  compare_and_swap fetch_and_increment test_and_set exchange read : Operation

-- The function of the code.
abbrev pub perform : Config → ℕ → ℕ → Operation → M ℕ
perform c cl reps compare_and_swap = cas_0_eventually c cl reps
perform c cl reps fetch_and_increment = fai c cl reps
perform c cl reps test_and_set = tas c cl reps
perform c cl reps exchange = swap c cl reps
perform c cl reps read = load_0_eventually c cl reps

-- What the operation returns, by thread `id`, on a line that holds `v`.
abbrev pub answer : Config → ℕ → ℕ → ℕ → Operation → ℕ
answer c reps id v compare_and_swap = truth (v == expected c reps)
answer c reps id v fetch_and_increment = v
answer c reps id v test_and_set = if v % 256 == 255 then 0 else 1
answer c reps id v exchange = v
answer c reps id v read = v

-- What it leaves in the line.
abbrev pub result : Config → ℕ → ℕ → ℕ → Operation → ℕ
result c reps id v compare_and_swap = if v == expected c reps then replacement c reps else v
result c reps id v fetch_and_increment = u32 (v + 1)
result c reps id v test_and_set = v - v % 256 + 255
result c reps id v exchange = id
result c reps id v read = v

-- The fence levels that the operation knows.
abbrev pub IsFenced : Config → Operation → Type 0
IsFenced c read = c.test_lfence ≤ 2
IsFenced c _ = Unit {0}

-- When the lines of the stride are mapped, sample `reps` is allocated and the generator draws 0
-- within the fuel, `cas_0_eventually`, `fai`, `tas`, `swap` and, with a load fence from 0 to 2,
-- `load_0_eventually` return and are one compare-and-swap, increment, test-and-set of the low byte,
-- exchange for the thread's ID or load of line `cl`: they return its answer, the line holds its
-- result, and the lines outside the stride are left alone.
pub perform_lem :
    (c : Config) (cl reps : ℕ) (o : Operation)
    → InRange c cl reps
    → IsFenced c o
    → (l : Local) (w : Lines) → IsLively c l.seeds
    → Returns
        (λ r l' w'.
          Frame c cl l w l' w'
          × (r ≡ answer c reps l.id (w cl) o)
          × (w' cl ≡ result c reps l.id (w cl) o))
        (perform c cl reps o l w)
perform_lem c cl reps compare_and_swap range f l w lively =
    cas_0_eventually_lem c cl reps range l w lively
perform_lem c cl reps fetch_and_increment range f l w lively = fai_lem c cl reps range l w lively
perform_lem c cl reps test_and_set range f l w lively = tas_lem c cl reps range l w lively
perform_lem c cl reps exchange range f l w lively = swap_lem c cl reps range l w lively
perform_lem c cl reps read range f l w lively = load_0_eventually_lem c cl reps range l w lively f

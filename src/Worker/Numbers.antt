-- ===== src/Worker/Numbers.antt =====
-- The numbers that the workers pass to `barrier_wait`.
use altered_ccbench_fork.Common.{
  ℕ, zero, suc, List, [], ◌∷◌, ◌++◌, Bool, true, ltb, ◌&&◌, ◌≡◌, ◌∙◌, refl, ap, arith,
}
use altered_ccbench_fork.Machine.{Config}
use altered_ccbench_fork.Barrier.Init.{num_barriers}
use altered_ccbench_fork.Worker.Event.{Event}
use altered_ccbench_fork.Worker.Program.{run_worker}
use altered_ccbench_fork.Worker.Agreement.{barriers, schedule, rounds, zeros, run_worker_schedule}

-- Each number is that of a barrier.
abbrev pub all_barriers : List ℕ → Bool
all_barriers [] = true
all_barriers (n ∷ ns) = ltb n num_barriers && all_barriers ns

all_barriers-append :
    (ms ns : List ℕ)
    → all_barriers ms ≡ true
    → all_barriers ns ≡ true
    → all_barriers (ms ++ ns) ≡ true
all_barriers-append [] ns h h' = h'
all_barriers-append (m ∷ ms) ns h h' = ground (arith, all_barriers-append ms ns)

all_barriers-schedule : (e : Event) → all_barriers (schedule e ++ 4 ∷ []) ≡ true
all_barriers-schedule Event.store_on_modified = refl
all_barriers-schedule e = ground arith

all_barriers-rounds : (e : Event) (left : ℕ) → all_barriers (rounds e left) ≡ true
all_barriers-rounds e zero = refl
all_barriers-rounds e (suc left) =
    all_barriers-append (schedule e ++ 4 ∷ []) (rounds e left) (all_barriers-schedule e)
      (all_barriers-rounds e left)

all_barriers-zeros : (left : ℕ) → all_barriers (zeros left) ≡ true
all_barriers-zeros zero = refl
all_barriers-zeros (suc left) = all_barriers-zeros left

-- Every number that a worker passes to `barrier_wait` is below `NUM_BARRIERS`, so none of its calls
-- returns by the check of the number.
pub run_worker_numbers :
    (c : Config) (e : Event) (rank : ℕ) → all_barriers (barriers (run_worker c e rank)) ≡ true
run_worker_numbers c e rank =
    ap all_barriers (run_worker_schedule c e rank)
    ∙ all_barriers-append (rounds e c.test_reps) (zeros c.test_cores ++ 11 ∷ 0 ∷ [])
        (all_barriers-rounds e c.test_reps)
        (all_barriers-append (zeros c.test_cores) (11 ∷ 0 ∷ []) (all_barriers-zeros c.test_cores)
          refl)

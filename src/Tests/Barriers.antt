-- ===== src/Tests/Barriers.antt =====
-- The theorems on barriers and on numbers at concrete inputs.
use altered_ccbench_fork.Common.{
  ℕ, zero, suc, ◌*◌, ◌^◌, ◌≤◌, ◌<◌, ◌≡◌, arith, false, if◌then◌else◌, ltb,
}
use altered_ccbench_fork.Random.{clrand_mask, pow2roundup}
use altered_ccbench_fork.Random.Bounds.{clrand_mask-lt, pow2roundup_lem}
use altered_ccbench_fork.Barrier.Wait.{blocked, step}
use altered_ccbench_fork.Barrier.System.{System, init, advance, Reach, start, later}
use altered_ccbench_fork.Barrier.Safety.{begun, no_early_return, no_deadlock}
use altered_ccbench_fork.Barrier.Init.{num_barriers, barriers_init, barriers_init_lem}

-- Three accesses of thread 0 and three of thread 1, of two threads: both wait at the first
-- crossing.
abbrev both_wait : System
both_wait = advance 1 (advance 1 (advance 1 (advance 0 (advance 0 (advance 0 (init 2))))))

both_wait-Reach : Reach 2 both_wait
both_wait-Reach =
    later
      (later
        (later (later (later (later start 0 (omega arith)) 0 (omega arith)) 0 (omega arith)) 1
          (omega arith))
        1 (omega arith))
      1 (omega arith)

no_early_return_example : (both_wait.threads 0).returned ≤ begun (both_wait.threads 1)
no_early_return_example =
    no_early_return (omega arith) both_wait-Reach 0 1 (omega arith) (omega arith)

barriers_init_lem_example :
    barriers_init 4 (λ b. (init 9).bar) 3
    ≡ (if ltb 3 num_barriers then (init 4).bar else (init 9).bar)
barriers_init_lem_example = barriers_init_lem 4 (λ b. (init 9).bar) 3 (omega arith)

clrand_mask-lt_example : clrand_mask 16 12345 < 16
clrand_mask-lt_example = clrand_mask-lt 16 12345 (omega arith) (omega arith)

pow2roundup_lem_example : (k : ℕ) × (pow2roundup 1000 ≡ 2 ^ k) × (1000 ≤ 2 ^ k) × (2 ^ k < 2 * 1000)
pow2roundup_lem_example = pow2roundup_lem 1000 (omega arith) (omega arith)

-- The hypothesis of `no_deadlock` that both threads have begun their first call.
both_begun : (j : ℕ) → j < 2 → 0 < begun (both_wait.threads j)
unfolding step
both_begun zero lt = omega arith
both_begun (suc zero) lt = omega arith
both_begun (suc (suc j)) lt = absurd (omega arith)

no_deadlock_example :
    (j : ℕ) × (j < 2)
    × ((both_wait.threads j).returned ≤ 0)
    × (blocked both_wait.bar (both_wait.threads j).pc ≡ false)
no_deadlock_example =
    no_deadlock (omega arith) both_wait-Reach both_begun 0 (omega arith)
      (unfold step in omega arith)

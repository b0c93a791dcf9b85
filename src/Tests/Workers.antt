-- ===== src/Tests/Workers.antt =====
-- The theorems on the threads of a test at concrete inputs.
use altered_ccbench_fork.Common.{◌≡◌, [], ◌∷◌, ◌++◌}
use altered_ccbench_fork.Worker.Event
use altered_ccbench_fork.Worker.Program.{run_worker}
use altered_ccbench_fork.Worker.Agreement.{barriers, rounds, zeros, run_worker_schedule}
use altered_ccbench_fork.Worker.Numbers.{all_barriers, run_worker_numbers}
use altered_ccbench_fork.Common.{true}
use altered_ccbench_fork.Tests.Data.{config}

run_worker_schedule_example :
    barriers (run_worker config Event.tas 1)
    ≡ 0 ∷ 0 ∷ (rounds Event.tas 2 ++ (zeros 2 ++ 11 ∷ 0 ∷ []))
run_worker_schedule_example = run_worker_schedule config Event.tas 1

run_worker_numbers_example : all_barriers (barriers (run_worker config Event.tas 1)) ≡ true
run_worker_numbers_example = run_worker_numbers config Event.tas 1

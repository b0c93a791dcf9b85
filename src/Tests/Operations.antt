-- ===== src/Tests/Operations.antt =====
-- The theorems on the measured operations at concrete inputs.
use altered_ccbench_fork.Common.{◌+◌, ◌-◌, ◌%◌, ◌≡◌, arith, if◌then◌else◌, ◌==◌}
use altered_ccbench_fork.Access.{store_0_eventually}
use altered_ccbench_fork.Access.Rounds.{Returns}
use altered_ccbench_fork.Access.Sequential.{Frame}
use altered_ccbench_fork.Access.Specification.{perform, test_and_set, perform_lem}
use altered_ccbench_fork.Access.Transfers.{store_0_eventually_lem}
use altered_ccbench_fork.Tests.Data.{config, thread, lines, lively, in_range}

perform_lem_example :
    Returns
      (λ r l' w'.
        Frame config 1 (thread 0) lines l' w'
        × (r ≡ (if 6 % 256 == 255 then 0 else 1))
        × (w' 1 ≡ 6 - 6 % 256 + 255))
      (perform config 1 0 test_and_set (thread 0) lines)
perform_lem_example =
    perform_lem config 1 0 test_and_set (in_range 0 (omega arith)) tt (thread 0) lines (lively 0)

store_0_eventually_lem_example :
    Returns
      (λ u l' w'. Frame config 1 (thread 1) lines l' w' × (w' 1 ≡ 0))
      (store_0_eventually config 1 1 (thread 1) lines)
store_0_eventually_lem_example =
    store_0_eventually_lem config 1 1 (in_range 1 (omega arith)) (thread 1) lines (lively 1)
      (omega arith)

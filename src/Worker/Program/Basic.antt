-- ===== src/Worker/Program/Basic.antt =====
-- The tests of loads and stores, from STORE_ON_MODIFIED to LOAD_FROM_INVALID.
use altered_ccbench_fork.Common.{ℕ, zero, suc, List, [], ◌∷◌, ◌++◌}
use altered_ccbench_fork.Machine.{Config}
use altered_ccbench_fork.Worker.Program.Statement.{
  Action, call, b1, b2, step_lines, store_0, store_0_no_pf, store_0_eventually,
  store_0_eventually_pfd1, load_0_eventually, load_0_eventually_no_pf, invalidate,
}

unfoldable pub store_on_modified : ℕ → List Action
store_on_modified zero = call store_0_eventually ∷ b1 ∷ []
store_on_modified (suc zero) = b1 ∷ call store_0_eventually ∷ []
store_on_modified _ = b1 ∷ []

unfoldable pub store_on_modified_no_sync : ℕ → List Action
store_on_modified_no_sync zero = call store_0 ∷ []
store_on_modified_no_sync (suc zero) = call store_0 ∷ []
store_on_modified_no_sync (suc (suc zero)) = call store_0 ∷ []
store_on_modified_no_sync _ = call store_0_no_pf ∷ []

unfoldable pub store_on_exclusive : ℕ → Config → List Action
store_on_exclusive zero c = (call load_0_eventually ∷ b1 ∷ []) ++ step_lines c
store_on_exclusive (suc zero) c = (b1 ∷ call store_0_eventually ∷ []) ++ step_lines c
store_on_exclusive _ c = (b1 ∷ []) ++ step_lines c

unfoldable pub store_on_shared : ℕ → List Action
store_on_shared zero = call load_0_eventually ∷ b1 ∷ b2 ∷ []
store_on_shared (suc zero) = b1 ∷ b2 ∷ call store_0_eventually ∷ []
store_on_shared (suc (suc zero)) = b1 ∷ call load_0_eventually ∷ b2 ∷ []
store_on_shared _ = b1 ∷ call load_0_eventually_no_pf ∷ b2 ∷ []

unfoldable pub store_on_owned_mine : ℕ → List Action
store_on_owned_mine zero = b1 ∷ call load_0_eventually ∷ b2 ∷ []
store_on_owned_mine (suc zero) =
    call store_0_eventually ∷ b1 ∷ b2 ∷ call store_0_eventually_pfd1 ∷ []
store_on_owned_mine _ = b1 ∷ call load_0_eventually_no_pf ∷ b2 ∷ []

unfoldable pub store_on_owned : ℕ → List Action
store_on_owned zero = call store_0_eventually ∷ b1 ∷ b2 ∷ []
store_on_owned (suc zero) = b1 ∷ call load_0_eventually ∷ b2 ∷ call store_0_eventually_pfd1 ∷ []
store_on_owned _ = b1 ∷ call load_0_eventually_no_pf ∷ b2 ∷ []

unfoldable pub store_on_invalid : ℕ → Config → List Action
store_on_invalid zero c = (b1 ∷ call store_0 ∷ []) ++ step_lines c
store_on_invalid (suc zero) c = (call invalidate ∷ []) ++ (step_lines c ++ b1 ∷ [])
store_on_invalid _ c = b1 ∷ []

unfoldable pub load_from_modified : ℕ → List Action
load_from_modified zero = call store_0_eventually ∷ b1 ∷ []
load_from_modified (suc zero) = b1 ∷ call load_0_eventually ∷ []
load_from_modified _ = b1 ∷ []

unfoldable pub load_from_exclusive : ℕ → Config → List Action
load_from_exclusive zero c = (call load_0_eventually ∷ b1 ∷ []) ++ step_lines c
load_from_exclusive (suc zero) c = (b1 ∷ call load_0_eventually ∷ []) ++ step_lines c
load_from_exclusive _ c = b1 ∷ []

unfoldable pub load_from_shared : ℕ → Config → List Action
load_from_shared zero c = (call load_0_eventually ∷ b1 ∷ b2 ∷ []) ++ step_lines c
load_from_shared (suc zero) c = (b1 ∷ call load_0_eventually ∷ b2 ∷ []) ++ step_lines c
load_from_shared (suc (suc zero)) c = (b1 ∷ b2 ∷ call load_0_eventually ∷ []) ++ step_lines c
load_from_shared _ c = (b1 ∷ call load_0_eventually_no_pf ∷ b2 ∷ []) ++ step_lines c

unfoldable pub load_from_owned : ℕ → List Action
load_from_owned zero = call store_0_eventually ∷ b1 ∷ b2 ∷ []
load_from_owned (suc zero) = b1 ∷ call load_0_eventually ∷ b2 ∷ []
load_from_owned (suc (suc zero)) = b1 ∷ b2 ∷ call load_0_eventually ∷ []
load_from_owned _ = b1 ∷ b2 ∷ []

unfoldable pub load_from_invalid : ℕ → Config → List Action
load_from_invalid zero c = (b1 ∷ call load_0_eventually ∷ []) ++ step_lines c
load_from_invalid (suc zero) c = (call invalidate ∷ b1 ∷ []) ++ step_lines c
load_from_invalid _ c = (b1 ∷ []) ++ step_lines c

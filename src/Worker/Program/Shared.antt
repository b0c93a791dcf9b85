-- ===== src/Worker/Program/Shared.antt =====
-- The tests from CAS_ON_SHARED on, and the tests of one core or of one instruction.
use altered_ccbench_fork.Common.{ℕ, zero, suc, List, [], ◌∷◌, ◌++◌, if◌then◌else◌, ltb, ◌==◌}
use altered_ccbench_fork.Machine.{Config, Fence}
use altered_ccbench_fork.Worker.Program.Statement.{
  Action, call, b1, b2, step_lines, cas, cas_no_pf, cas_0_eventually, fai, tas, swap, write_word,
  load_0_eventually, load_0_eventually_no_pf, load_0, load_next, invalidate, profile,
}

unfoldable pub cas_on_shared : ℕ → List Action
cas_on_shared zero = call load_0_eventually ∷ b1 ∷ b2 ∷ []
cas_on_shared (suc zero) = b1 ∷ b2 ∷ call cas_0_eventually ∷ []
cas_on_shared (suc (suc zero)) = b1 ∷ call load_0_eventually ∷ b2 ∷ []
cas_on_shared _ = b1 ∷ call load_0_eventually_no_pf ∷ b2 ∷ []

unfoldable pub fai_on_shared : ℕ → List Action
fai_on_shared zero = call load_0_eventually ∷ b1 ∷ b2 ∷ []
fai_on_shared (suc zero) = b1 ∷ b2 ∷ call fai ∷ []
fai_on_shared (suc (suc zero)) = b1 ∷ call load_0_eventually ∷ b2 ∷ []
fai_on_shared _ = b1 ∷ call load_0_eventually_no_pf ∷ b2 ∷ []

unfoldable pub tas_on_shared : ℕ → Config → List Action
tas_on_shared zero c =
    (if c.test_ao_success then call (write_word 0) ∷ [] else call (write_word 0xFFFFFFFF) ∷ [])
    ++ call load_0_eventually ∷ b1 ∷ b2 ∷ []
tas_on_shared (suc zero) c = b1 ∷ b2 ∷ call tas ∷ []
tas_on_shared (suc (suc zero)) c = b1 ∷ call load_0_eventually ∷ b2 ∷ []
tas_on_shared _ c = b1 ∷ call load_0_eventually_no_pf ∷ b2 ∷ []

unfoldable pub swap_on_shared : ℕ → List Action
swap_on_shared zero = call load_0_eventually ∷ b1 ∷ b2 ∷ []
swap_on_shared (suc zero) = b1 ∷ b2 ∷ call swap ∷ []
swap_on_shared (suc (suc zero)) = b1 ∷ call load_0_eventually ∷ b2 ∷ []
swap_on_shared _ = b1 ∷ call load_0_eventually_no_pf ∷ b2 ∷ []

unfoldable pub cas_concurrent : ℕ → Config → List Action
cas_concurrent id c = if ltb id c.test_cores then call cas ∷ [] else call cas_no_pf ∷ []

unfoldable pub fai_on_invalid : ℕ → Config → List Action
fai_on_invalid zero c = (b1 ∷ call fai ∷ []) ++ step_lines c
fai_on_invalid (suc zero) c = (call invalidate ∷ b1 ∷ []) ++ step_lines c
fai_on_invalid _ c = (b1 ∷ []) ++ step_lines c

unfoldable pub load_from_l1 : ℕ → List Action
load_from_l1 id = if id == 0 then call load_0 ∷ call load_0 ∷ call load_0 ∷ [] else []

unfoldable pub load_from_mem_size : ℕ → Config → List Action
load_from_mem_size id c = if ltb id c.test_cores then call load_next ∷ [] else []

-- LFENCE, SFENCE, MFENCE, PAUSE and NOP: one instruction, on the first two cores.
unfoldable pub one_instruction : ℕ → Fence → List Action
one_instruction id f = if ltb id 2 then call (profile (f ∷ [])) ∷ [] else []

unfoldable pub profiler : List Action
profiler = call (profile []) ∷ []

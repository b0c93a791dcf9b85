-- ===== src/Worker/Program/Atomic.antt =====
-- The tests of atomic operations, from CAS to SWAP_ON_MODIFIED.
use Prim.Native.Nat.{bit_and}
use altered_ccbench_fork.Common.{ℕ, zero, suc, List, [], ◌∷◌, ◌++◌, if◌then◌else◌}
use altered_ccbench_fork.Machine.{Config}
use altered_ccbench_fork.Worker.Program.Statement.{
  Action, call, b1, b2, cas_0_eventually, fai, tas, swap, store_0_eventually, write_word,
  full_fence,
}

unfoldable pub cas_test : ℕ → List Action
cas_test zero = call cas_0_eventually ∷ b1 ∷ []
cas_test (suc zero) = b1 ∷ call cas_0_eventually ∷ []
cas_test _ = b1 ∷ []

unfoldable pub fai_test : ℕ → List Action
fai_test zero = call fai ∷ b1 ∷ []
fai_test (suc zero) = b1 ∷ call fai ∷ []
fai_test _ = b1 ∷ []

unfoldable pub tas_test : ℕ → List Action
tas_test zero = call tas ∷ b1 ∷ b2 ∷ []
tas_test (suc zero) = b1 ∷ call tas ∷ call full_fence ∷ call (write_word 0) ∷ b2 ∷ []
tas_test _ = b1 ∷ b2 ∷ []

unfoldable pub swap_test : ℕ → List Action
swap_test zero = call swap ∷ b1 ∷ []
swap_test (suc zero) = b1 ∷ call swap ∷ []
swap_test _ = b1 ∷ []

unfoldable pub cas_on_modified : ℕ → Config → ℕ → List Action
cas_on_modified zero c reps =
    call store_0_eventually
    ∷ ((if c.test_ao_success then call (write_word (bit_and reps 1)) ∷ [] else []) ++ b1 ∷ [])
cas_on_modified (suc zero) c reps = b1 ∷ call cas_0_eventually ∷ []
cas_on_modified _ c reps = b1 ∷ []

unfoldable pub fai_on_modified : ℕ → List Action
fai_on_modified zero = call store_0_eventually ∷ b1 ∷ []
fai_on_modified (suc zero) = b1 ∷ call fai ∷ []
fai_on_modified _ = b1 ∷ []

unfoldable pub tas_on_modified : ℕ → Config → List Action
tas_on_modified zero c =
    call store_0_eventually
    ∷ ((if c.test_ao_success then [] else call (write_word 0xFFFFFFFF) ∷ call full_fence ∷ [])
        ++ b1 ∷ [])
tas_on_modified (suc zero) c = b1 ∷ call tas ∷ []
tas_on_modified _ c = b1 ∷ []

unfoldable pub swap_on_modified : ℕ → List Action
swap_on_modified zero = call store_0_eventually ∷ b1 ∷ []
swap_on_modified (suc zero) = b1 ∷ call swap ∷ []
swap_on_modified _ = b1 ∷ []

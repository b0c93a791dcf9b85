-- ===== src/CommandLine/TestOption.antt =====
-- `parse_test_option`, with the table `moesi_type_des` of include/ccbench.h.
use altered_ccbench_fork.Common.{
  ℕ, ◌+◌, Bool, true, false, ◌&&◌, List, [], ◌∷◌, if◌then◌else◌, leb, Text, codes,
}
use altered_ccbench_fork.Libc.{ℤ, pos, negsuc, strtol, same_letters}
use altered_ccbench_fork.CommandLine.Result.{Result, ok, exit, out_of_range, unknown_test}

-- `NUM_EVENTS`
abbrev pub num_events : ℕ
num_events = 34

abbrev pub moesi_type_des : List Text
moesi_type_des =
    codes "STORE_ON_MODIFIED"
    ∷ codes "STORE_ON_MODIFIED_NO_SYNC"
    ∷ codes "STORE_ON_EXCLUSIVE"
    ∷ codes "STORE_ON_SHARED"
    ∷ codes "STORE_ON_OWNED_MINE"
    ∷ codes "STORE_ON_OWNED"
    ∷ codes "STORE_ON_INVALID"
    ∷ codes "LOAD_FROM_MODIFIED"
    ∷ codes "LOAD_FROM_EXCLUSIVE"
    ∷ codes "LOAD_FROM_SHARED"
    ∷ codes "LOAD_FROM_OWNED"
    ∷ codes "LOAD_FROM_INVALID"
    ∷ codes "CAS"
    ∷ codes "FAI"
    ∷ codes "TAS"
    ∷ codes "SWAP"
    ∷ codes "CAS_ON_MODIFIED"
    ∷ codes "FAI_ON_MODIFIED"
    ∷ codes "TAS_ON_MODIFIED"
    ∷ codes "SWAP_ON_MODIFIED"
    ∷ codes "CAS_ON_SHARED"
    ∷ codes "FAI_ON_SHARED"
    ∷ codes "TAS_ON_SHARED"
    ∷ codes "SWAP_ON_SHARED"
    ∷ codes "CAS_CONCURRENT"
    ∷ codes "FAI_ON_INVALID"
    ∷ codes "LOAD_FROM_L1"
    ∷ codes "LOAD_FROM_MEM_SIZE"
    ∷ codes "LFENCE"
    ∷ codes "SFENCE"
    ∷ codes "MFENCE"
    ∷ codes "PROFILER"
    ∷ codes "PAUSE"
    ∷ codes "NOP"
    ∷ []

-- The test of the number, of an `arg` that is one.
unfoldable pub in_table : ℤ → Result ℕ
in_table (pos n) = if leb num_events n then exit 1 out_of_range else ok n
in_table (negsuc n) = exit 1 out_of_range

-- `for (int idx = 0; idx < NUM_EVENTS; idx++)`, from the name at `idx` on.
unfoldable pub find_name : Text → ℕ → List Text → Result ℕ
unfolding same_letters
find_name arg idx [] = exit 1 unknown_test
find_name arg idx (name ∷ names) =
    let later = find_name arg (idx + 1) names in if same_letters arg name then ok idx else later

abbrev pub is_empty : Text → Bool
is_empty [] = true
is_empty (c ∷ s) = false

unfoldable pub parse_test_option : Text → Result ℕ
unfolding in_table find_name
parse_test_option arg =
    let numeric = strtol arg in
    if numeric.converted && (is_empty numeric.rest && numeric.in_range)
    then in_table numeric.value
    else find_name arg 0 moesi_type_des

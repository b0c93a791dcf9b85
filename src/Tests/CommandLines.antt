-- ===== src/Tests/CommandLines.antt =====
-- The theorems on the command line at concrete inputs.
use altered_ccbench_fork.Common.{
  ℕ, ◌^◌, ◌*◌, ◌<◌, ◌≡◌, ◌⊎◌, refl, arith, List, [], ◌∷◌, ◌++◌, All, Text, codes, length,
}
use altered_ccbench_fork.Libc.{
  pos, strtol, skip_spaces, digits, split, tokens, atoi, to_uint32, sign_extend,
}
use altered_ccbench_fork.CommandLine.Result.{ok, exit, fault, Related, no_cores}
use altered_ccbench_fork.CommandLine.CoreList.{
  outside_uint32, entry_end, entry_number, entry_at, entry, entries, unsnoc, unbracket,
  at_least_one, parse_core_list,
}
use altered_ccbench_fork.CommandLine.RoundTrip.{print_core_list, parse-print}
use altered_ccbench_fork.CommandLine.Accepts.{parse_core_list-accepts}
use altered_ccbench_fork.CommandLine.Size.{parse_size, without_b, last_character}
use altered_ccbench_fork.CommandLine.Scale.{parse_size_lem}
use altered_ccbench_fork.CommandLine.TestOption.{num_events, moesi_type_des, parse_test_option}
use altered_ccbench_fork.CommandLine.TestNames.{IsName, parse_test_option_lem}
use altered_ccbench_fork.CommandLine.Cores.{initial_cores}
use altered_ccbench_fork.CommandLine.Choice.{no_choice}
use altered_ccbench_fork.CommandLine.Options.{arrays, choices, defaults, set_options}
use altered_ccbench_fork.CommandLine.Valid.{Accepts, IsValid, defaults-IsValid, set_options-IsValid}
use altered_ccbench_fork.CommandLine.Placement.{Configured, set_options-Configured}

-- Empty entries are skipped, and spaces around a number are allowed.
two_commas : parse_core_list (codes "[1, 2,,3 ]") ≡ ok (1 ∷ 2 ∷ 3 ∷ [])
unfolding parse_core_list unbracket unsnoc entries entry entry_at entry_number entry_end
    outside_uint32 at_least_one tokens split strtol skip_spaces digits
two_commas = refl

only_brackets : parse_core_list (codes "[]") ≡ exit 1 no_cores
unfolding parse_core_list unbracket unsnoc entries at_least_one tokens split
only_brackets = refl

kilobytes : parse_size (codes "64kB") ≡ ok 65536
unfolding parse_size without_b last_character unsnoc atoi strtol skip_spaces digits to_uint32
    sign_extend
kilobytes = refl

-- `parse_size` reads the character before an empty argument.
empty_size : parse_size [] ≡ fault
unfolding parse_size without_b last_character unsnoc
empty_size = refl

parse-print_example : parse_core_list (print_core_list (0 ∷ 12 ∷ [])) ≡ ok (0 ∷ 12 ∷ [])
parse-print_example = parse-print (0 ∷ 12 ∷ []) (λ e. cc) (omega arith, (omega arith, tt))

parse_core_list-accepts_example :
    (inner : Text) × (codes "[1, 2,,3 ]" ≡ b'[' ∷ (inner ++ b']' ∷ []))
    × (0 < 3)
    × (3 ≡ length (tokens b',' inner))
    × All (λ n. n < 2 ^ 32) (1 ∷ 2 ∷ 3 ∷ [])
parse_core_list-accepts_example =
    parse_core_list-accepts (codes "[1, 2,,3 ]") (1 ∷ 2 ∷ 3 ∷ []) two_commas

parse_test_option_lem_example :
    (parse_test_option (codes "cas") ≡ ok 12
      → (12 < num_events)
        × (((strtol (codes "cas")).value ≡ pos 12) × ((strtol (codes "cas")).rest ≡ [])
            ⊎ IsName moesi_type_des (codes "cas") 12))
    × (IsName moesi_type_des (codes "cas") 12 → parse_test_option (codes "cas") ≡ ok 12)
parse_test_option_lem_example = parse_test_option_lem (codes "cas") 12

abbrev given : List (ℕ × Text)
given = (b'c', codes "2") ∷ (b'x', codes "[4,6]") ∷ (b'r', codes "50") ∷ []

set_options-Configured_example :
    Related Configured
      (set_options arrays given (defaults (initial_cores (λ i. 7))))
      (set_options choices given (defaults no_choice))
set_options-Configured_example =
    set_options-Configured given (λ i. 7) (omega arith, (omega arith, (omega arith, tt)))

parse_size_lem_example :
    (parse_size (codes "64") ≡ ok 64)
    × (parse_size (codes "64b") ≡ ok 64)
    × (parse_size (codes "64k") ≡ ok (1024 * 64))
    × (parse_size (codes "64kb") ≡ ok (1024 * 64))
parse_size_lem_example =
    parse_size_lem (codes "64") b'k' (λ e. cc) (omega arith, (omega arith, tt)) (omega arith)
      (omega arith)

set_options-IsValid_example :
    Accepts IsValid (set_options arrays given (defaults (initial_cores (λ i. 7))))
set_options-IsValid_example =
    set_options-IsValid arrays given (defaults (initial_cores (λ i. 7)))
      (defaults-IsValid (initial_cores (λ i. 7)))

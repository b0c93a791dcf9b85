-- ===== src/CommandLine/Placement.antt =====
-- Which core each thread runs on, after the options.
use altered_ccbench_fork.Common.{
  ℕ, ◌^◌, ◌<◌, ◌≤◌, ◌≡◌, ◌∙◌, sym, subst, ap, refl, arith, true, false, List, Option, none, some,
  length, get_elem?, All, Text,
}
use altered_ccbench_fork.CommandLine.Result.{Related, Related-map}
use altered_ccbench_fork.CommandLine.Cores.{
  allocated, Cores, initial_cores, core_in, core_of, ensure_capacity, assign_default_cores_array,
  finish_cores,
}
use altered_ccbench_fork.CommandLine.Choice.{Choice, no_choice, threads, chosen_core}
use altered_ccbench_fork.CommandLine.Refinement.{
  StandsFor, initial-StandsFor, number_cells_lem, set_cores-Agree, set_cores_array-Agree,
}
use altered_ccbench_fork.CommandLine.Options.{arrays, choices, Settings, defaults, set_options}
use altered_ccbench_fork.CommandLine.Simulation.{
  Simulates, SettingsAgree, others, set_options-agrees,
}

pub record Placed (s : Cores) (ch : Choice) : Type 0 where
  pub test_cores : s.test_cores ≡ threads ch.count ch.list
  pub core : (rank : ℕ) → rank < s.test_cores → core_of s rank ≡ chosen_core ch.list rank

assign-core_of :
    (n : ℕ) (s : Cores) (rank : ℕ)
    → s.cores_array_explicit ≡ false
    → rank < n
    → core_of (assign_default_cores_array n s) rank ≡ some rank
unfolding assign_default_cores_array ensure_capacity
assign-core_of n s rank e lt = ground (arith, number_cells_lem n 0 s.cells rank)

assign-test_cores : (n : ℕ) (s : Cores) → (assign_default_cores_array n s).test_cores ≡ s.test_cores
unfolding assign_default_cores_array ensure_capacity
assign-test_cores n s = ground arith

finish_cores-default :
    (s : Cores)
    → s.cores_array_explicit ≡ false
    → finish_cores s ≡ assign_default_cores_array s.test_cores s
unfolding finish_cores
finish_cores-default s e = ground arith

finish_cores-explicit : (s : Cores) → s.cores_array_explicit ≡ true → finish_cores s ≡ s
unfolding finish_cores
finish_cores-explicit s e = ground arith

listed-core_of :
    (s : Cores) (l : List ℕ) (rank : ℕ)
    → s.test_cores_array ≡ allocated
    → length l ≤ s.allocated_cores_capacity
    → some (s.cells rank) ≡ get_elem? l rank
    → rank < length l
    → core_of s rank ≡ get_elem? l rank
listed-core_of s l rank at room same lt =
    let e : core_in allocated s rank ≡ some (s.cells rank) = ground arith in
    ap (λ a. core_in a s rank) at ∙ e ∙ same

finish_cores-Placed :
    (s : Cores) (count : Option ℕ) (list : Option (List ℕ))
    → StandsFor s (record { count = count; list = list })
    → Placed (finish_cores s) (record { count = count; list = list })
finish_cores-Placed s count none h =
    let e = finish_cores-default s h.array_explicit in
    let same = assign-test_cores s.test_cores s in
    subst (λ t. Placed t (record { count = count; list = none })) (sym e)
      (record {
        test_cores = same ∙ h.test_cores;
        core = λ rank lt.
            assign-core_of s.test_cores s rank h.array_explicit (subst (λ n. rank < n) same lt);
      })
finish_cores-Placed s count (some l) h =
    let e = finish_cores-explicit s h.array_explicit in
    let (at, room, len, cells) = h.copied in
    let same : s.test_cores ≡ length l = h.test_cores in
    subst (λ t. Placed t (record { count = count; list = some l })) (sym e)
      (record {
        test_cores = same;
        core = λ rank lt.
            let lt' : rank < length l = subst (λ n. rank < n) same lt in
            listed-core_of s l rank at room (cells rank lt') lt';
      })

simulates : Simulates StandsFor arrays choices
simulates = record {
  count = λ n s ch h. set_cores-Agree n s ch.count ch.list h;
  list = λ l s ch small h. set_cores_array-Agree l s ch.count ch.list small h;
}

-- The cores that the program uses after the options are the chosen ones, and the other variables agree.
abbrev pub Configured : Settings Cores → Settings Choice → Type 0
Configured s s' = Placed (finish_cores s.cores) s'.cores × (others s ≡ others s')

-- For every sequence of options with arguments shorter than 2 ^ 32 characters, the program and the
-- abstract choice both refuse with the same message, or both accept; then the number of threads is
-- the chosen one, the thread of every rank below it has the chosen core (its entry in the list, or
-- its own rank), and the other variables are equal.
pub set_options-Configured :
    (given : List (ℕ × Text)) (memory : ℕ → ℕ)
    → All (λ o. length o.1 < 2 ^ 32) given
    → Related Configured
        (set_options arrays given (defaults (initial_cores memory)))
        (set_options choices given (defaults no_choice))
set_options-Configured given memory small =
    Related-map (SettingsAgree StandsFor arrays choices simulates) Configured
      (λ s s' (h, e). (finish_cores-Placed s.cores s'.cores.count s'.cores.list h, e)) _ _
      (set_options-agrees StandsFor arrays choices simulates given (defaults (initial_cores memory))
        (defaults no_choice) small (initial-StandsFor memory, refl))

-- ===== src/CommandLine/Options.antt =====
-- The loop over the options in `main`. `getopt_long` gives the characters and the arguments; an
-- option without an argument comes with the empty text. What is printed is not modelled.
use altered_ccbench_fork.Common.{
  ℕ, ◌*◌, Bool, true, false, List, [], ◌∷◌, if◌then◌else◌, ◌==◌, Text,
}
use altered_ccbench_fork.Random.{pow2roundup}
use altered_ccbench_fork.Libc.{atoi}
use altered_ccbench_fork.CommandLine.Result.{Result, ok, exit, ◌>>=◌, help, usage, other}
use altered_ccbench_fork.CommandLine.CoreList.{parse_core_list}
use altered_ccbench_fork.CommandLine.Size.{parse_size}
use altered_ccbench_fork.CommandLine.TestOption.{parse_test_option}
use altered_ccbench_fork.CommandLine.Cores.{Cores, parse_cores, set_cores, set_cores_array}
use altered_ccbench_fork.CommandLine.Choice.{Choice, choose_count, choose_list}

-- What the loop does with the number of cores and with their list.
pub record Selection {ℓ} (A : Type ℓ) : Type ℓ where
  pub select_count : ℕ → A → Result A
  pub select_list : List ℕ → A → Result A

abbrev pub arrays : Selection Cores
arrays = record { select_count = set_cores; select_list = set_cores_array }

abbrev pub choices : Selection Choice
choices = record { select_count = choose_count; select_list = choose_list }

-- The variables that the options set. `cores` holds those of the cores.
pub record Settings {ℓ} (A : Type ℓ) : Type ℓ where
  pub cores : A
  pub test_test : ℕ
  pub test_reps : ℕ
  pub test_core_others : ℕ
  pub test_flush : Bool
  pub test_stride : ℕ
  pub test_fence : ℕ
  pub test_mem_size : ℕ
  pub test_ao_success : Bool
  pub test_verbose : Bool
  pub test_print : ℕ

module _ {ℓ} {A : Type ℓ} where
  abbrev pub defaults : A → Settings A
  defaults a = record {
    cores = a;
    test_test = 0;
    test_reps = 10000;
    test_core_others = 0;
    test_flush = false;
    test_stride = 2048;
    test_fence = 0;
    test_mem_size = 1024 * 1024 * 64;
    test_ao_success = false;
    test_verbose = false;
    test_print = 100;
  }

  abbrev pub with_cores : Settings A → Result A → Result (Settings A)
  with_cores s m = do a ← m; ok (record s { cores = a })

  -- `switch(c)`
  unfoldable pub set_option : Selection A → ℕ → Text → Settings A → Result (Settings A)
  set_option selection c optarg s =
      if c == 0
      then ok s
      else if c == b'h'
      then exit 0 help
      else if c == b'c'
      then with_cores s (do n ← parse_cores optarg; selection.select_count n s.cores)
      else if c == b'r'
      then ok (record s { test_reps = atoi optarg })
      else if c == b't'
      then (do e ← parse_test_option optarg; ok (record s { test_test = e }))
      else if c == b'x'
      then with_cores s (do l ← parse_core_list optarg; selection.select_list l s.cores)
      else if c == b'o'
      then ok (record s { test_core_others = atoi optarg })
      else if c == b'f'
      then ok (record s { test_flush = true })
      else if c == b's'
      then ok (record s { test_stride = pow2roundup (atoi optarg) })
      else if c == b'e'
      then ok (record s { test_fence = atoi optarg })
      else if c == b'm'
      then (do size ← parse_size optarg; ok (record s { test_mem_size = size }))
      else if c == b'u'
      then ok (record s { test_ao_success = true })
      else if c == b'v'
      then ok (record s { test_verbose = true })
      else if c == b'p'
      then ok (record s { test_verbose = true; test_print = atoi optarg })
      else if c == b'?'
      then exit 0 usage
      else exit 1 other

  -- `while(1)`
  unfoldable pub set_options : Selection A → List (ℕ × Text) → Settings A → Result (Settings A)
  unfolding set_option
  set_options selection [] s = ok s
  set_options selection ((c, optarg) ∷ given) s = do
    s' ← set_option selection c optarg s
    set_options selection given s'

-- ===== src/Tests/Settings.antt =====
-- The theorems on the settings at concrete inputs: the test CAS on two cores, and STORE_ON_EXCLUSIVE
-- with three repetitions, on 64 KiB with stride 1.
use altered_ccbench_fork.Common.{
  ◌%◌, ℕ, List, [], ◌∷◌, Text, codes, ◌*◌, ◌≡◌, true, false, some, arith, refl, if◌then◌else◌, ◌==◌,
}
use altered_ccbench_fork.Random.{pow2roundup, smear}
use altered_ccbench_fork.Machine.{Config}
use altered_ccbench_fork.Access.Rounds.{IsLively, IsLively-one}
use altered_ccbench_fork.Access.Sequential.{InRange}
use altered_ccbench_fork.Worker.Event
use altered_ccbench_fork.Worker.Outcome.Runs.{Start}
use altered_ccbench_fork.Setup.{Options, configure, settings, asserted, is_checked, is_mem_size}
use altered_ccbench_fork.Setup.Ranges.{configure-stepped}
use altered_ccbench_fork.Setup.Launch.{launch}
use altered_ccbench_fork.Setup.Threads.{run_threads, Course, run_threads-Course}
use altered_ccbench_fork.Worker.Interleaved.{State}
use altered_ccbench_fork.Worker.Interleaved.Runs.{Runs}
use altered_ccbench_fork.Worker.Interleaved.Results.{cas_ends}
use altered_ccbench_fork.Setup.Whole.{start_state, start_state-Quiet, cas_from_options}
use altered_ccbench_fork.Setup.FromOptions.{options_of, read_options, read_options-Start}
use altered_ccbench_fork.Libc.{
  strtol, skip_spaces, digits, atoi, to_uint32, sign_extend, same_letters, to_lower,
}
use altered_ccbench_fork.CommandLine.Result.{ok}
use altered_ccbench_fork.CommandLine.CoreList.{unsnoc}
use altered_ccbench_fork.CommandLine.Size.{parse_size, without_b, last_character}
use altered_ccbench_fork.CommandLine.TestOption.{parse_test_option, find_name, in_table}
use altered_ccbench_fork.CommandLine.Cores.{
  Cores, initial_cores, finish_cores, assign_default_cores_array,
}
use altered_ccbench_fork.CommandLine.Options.{Settings, defaults, set_option, set_options}
use altered_ccbench_fork.Tests.Data.{seeds}

abbrev cas_options : Options
cas_options = record {
  test_test = Event.cas;
  test_cores = 2;
  test_reps = 3;
  test_stride = 1;
  test_fence = 2;
  test_mem_size = 65536;
  test_flush = false;
  test_ao_success = false;
}

abbrev store_options : Options
store_options = record cas_options { test_test = Event.store_on_exclusive }

abbrev cas_settings : Config
cas_settings = settings cas_options 24 (λ n. n) 1 0

abbrev store_settings : Config
store_settings = settings store_options 24 (λ n. n) 1 0

cas_accepted : configure cas_options 24 (λ n. n) 1 0 ≡ some cas_settings
unfolding configure asserted is_checked is_mem_size
cas_accepted = refl

store_accepted : configure store_options 24 (λ n. n) 1 0 ≡ some store_settings
unfolding configure asserted is_checked is_mem_size
store_accepted = refl

cas_other : is_mem_size Event.cas ≡ false
unfolding is_mem_size
cas_other = refl

store_checked : is_checked Event.store_on_exclusive ≡ true
unfolding is_checked
store_checked = refl

IsLively-settings : IsLively cas_settings seeds
IsLively-settings = IsLively-one cas_settings seeds refl (omega arith)

configure-stepped_example : InRange store_settings (2 * store_settings.test_stride) 2
configure-stepped_example =
    configure-stepped store_options 24 (λ n. n) 1 0 store_settings store_accepted (omega arith)
      (omega arith) store_checked refl (omega arith) 2 (omega arith)

-- The options -t cas -s 1 -m 64k -r 3 -e 2.
abbrev given : List (ℕ × Text)
given =
    (b't', codes "cas")
    ∷ (b's', codes "1")
    ∷ (b'm', codes "64k")
    ∷ (b'r', codes "3")
    ∷ (b'e', codes "2")
    ∷ []

abbrev memory : ℕ → ℕ
memory i = 7

abbrev read : Settings Cores
read = record (defaults (record (initial_cores memory) { configured_cores_array_len = 2 })) {
  test_test = 12;
  test_reps = 3;
  test_stride = 1;
  test_fence = 2;
  test_mem_size = 65536;
}

read_options-given : read_options given memory ≡ ok read
unfolding read_options set_options set_option parse_test_option find_name in_table same_letters
    to_lower parse_size without_b last_character unsnoc atoi to_uint32 sign_extend strtol
    skip_spaces digits pow2roundup smear finish_cores assign_default_cores_array
read_options-given = refl

abbrev read_settings : Config
read_settings = settings (options_of Event.cas read) 24 (λ n. n) 1 0

read_accepted : configure (options_of Event.cas read) 24 (λ n. n) 1 0 ≡ some read_settings
unfolding configure asserted is_checked is_mem_size
read_accepted = refl

IsLively-read_settings : IsLively read_settings seeds
IsLively-read_settings = IsLively-one read_settings seeds refl (omega arith)

read_options-Start_example : Start read_settings 2 0 0 (launch read_settings (λ i. seeds) (λ i. 9))
read_options-Start_example =
    read_options-Start given memory read Event.cas 24 (λ n. n) 1 0 read_settings (λ i. seeds)
      (λ i. 9) read_options-given refl read_accepted (omega arith) cas_other (omega arith)
      (omega arith) (omega arith) IsLively-read_settings IsLively-read_settings

abbrev starts : Start read_settings 2 0 0 (launch read_settings (λ i. seeds) (λ i. 9))
starts =
    read_options-Start given memory read Event.cas 24 (λ n. n) 1 0 read_settings (λ i. seeds)
      (λ i. 9) read_options-given refl read_accepted (omega arith) cas_other (omega arith)
      (omega arith) (omega arith) IsLively-read_settings IsLively-read_settings

abbrev before : State
before = start_state read_settings 2 (λ i. seeds) (λ i. 9)

abbrev whole_run : (f : State) × Runs read_settings 2 Event.cas before 3 f
whole_run =
    cas_ends 3 (omega arith) starts (start_state-Quiet read_settings 2 (λ i. seeds) (λ i. 9))
      (omega arith)

cas_from_options_example :
    ((whole_run.0.team.locals 0).sum ≡ 3)
    × ((whole_run.0.team.locals 1).sum ≡ 0)
    × (whole_run.0.team.lines 0 ≡ 3 % 2)
cas_from_options_example =
    cas_from_options given memory read 24 (λ n. n) 1 0 read_settings (λ i. seeds) (λ i. 9) 3
      whole_run.0 read_options-given refl read_accepted (omega arith) (omega arith) (omega arith)
      (omega arith) (omega arith) IsLively-read_settings IsLively-read_settings whole_run.1
      (omega arith)

-- The thread of rank 2 is refused.
abbrev refused : ℕ → ℕ
refused rank = if rank == 2 then 11 else 0

run_threads-Course_example :
    Course read_settings Event.cas refused
      (λ r. 0)
      3
      (run_threads read_settings Event.cas refused (λ r. 0) true 4)
run_threads-Course_example =
    run_threads-Course read_settings Event.cas refused (λ r. 0) 3 (omega arith)

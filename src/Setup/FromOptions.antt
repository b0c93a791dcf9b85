-- ===== src/Setup/FromOptions.antt =====
-- `main` from the options to the start of the threads.
use altered_ccbench_fork.Common.{
  ℕ, ◌^◌, ◌<◌, ◌≤◌, ◌≡◌, false, Option, some, List, [], ◌∷◌, Text, get_elem?, subst,
}
use altered_ccbench_fork.Random.{Seeds}
use altered_ccbench_fork.Machine.{Config, Lines}
use altered_ccbench_fork.Access.Rounds.{IsLively}
use altered_ccbench_fork.Worker.Event.{Event}
use altered_ccbench_fork.Worker.Outcome.Runs.{Start}
use altered_ccbench_fork.CommandLine.Result.{Result, ok, ◌>>=◌, >>=-eq-ok}
use altered_ccbench_fork.CommandLine.Cores.{Cores, initial_cores, finish_cores}
use altered_ccbench_fork.CommandLine.Options.{Settings, arrays, defaults, set_options}
use altered_ccbench_fork.CommandLine.Valid.{
  Accepts, IsValid, IsStride-lt, defaults-IsValid, set_options-IsValid,
}
use altered_ccbench_fork.Setup.{Options, configure, is_mem_size}
use altered_ccbench_fork.Setup.Launch.{launch, launch-Start}

-- The tests in the order of `moesi_type_t`, and the test of an index.
abbrev pub events : List Event
events =
    Event.store_on_modified ∷ Event.store_on_modified_no_sync ∷ Event.store_on_exclusive
    ∷ Event.store_on_shared ∷ Event.store_on_owned_mine ∷ Event.store_on_owned
    ∷ Event.store_on_invalid ∷ Event.load_from_modified ∷ Event.load_from_exclusive
    ∷ Event.load_from_shared ∷ Event.load_from_owned ∷ Event.load_from_invalid ∷ Event.cas
    ∷ Event.fai ∷ Event.tas ∷ Event.swap ∷ Event.cas_on_modified ∷ Event.fai_on_modified
    ∷ Event.tas_on_modified ∷ Event.swap_on_modified ∷ Event.cas_on_shared ∷ Event.fai_on_shared
    ∷ Event.tas_on_shared ∷ Event.swap_on_shared ∷ Event.cas_concurrent ∷ Event.fai_on_invalid
    ∷ Event.load_from_l1 ∷ Event.load_from_mem_size ∷ Event.lfence ∷ Event.sfence ∷ Event.mfence
    ∷ Event.profiler ∷ Event.pause ∷ Event.nop ∷ []

abbrev pub event_of : ℕ → Option Event
event_of i = get_elem? events i

abbrev pub options_of : Event → Settings Cores → Options
options_of e s = record {
  test_test = e;
  test_cores = s.cores.test_cores;
  test_reps = s.test_reps;
  test_stride = s.test_stride;
  test_fence = s.test_fence;
  test_mem_size = s.test_mem_size;
  test_flush = s.test_flush;
  test_ao_success = s.test_ao_success;
}

-- The loop over the options, and the default cores behind it.
unfoldable pub read_options : List (ℕ × Text) → (ℕ → ℕ) → Result (Settings Cores)
read_options given memory = do
  s ← set_options arrays given (defaults (initial_cores memory))
  ok (record s { cores = finish_cores s.cores })

read_options-IsValid :
    (given : List (ℕ × Text)) (memory : ℕ → ℕ) (s : Settings Cores)
    → read_options given memory ≡ ok s
    → IsValid s
unfolding read_options
read_options-IsValid given memory s h =
    let start = defaults (initial_cores memory) in
    let (t, e, e') = >>=-eq-ok (set_options arrays given start) _ h in
    let valid : IsValid t =
      subst (Accepts IsValid) e
        (set_options-IsValid arrays given start (defaults-IsValid (initial_cores memory))) in
    let e'' : record t { cores = finish_cores t.cores } ≡ s = cc in
    subst IsValid e'' (record { event = valid.event; stride = valid.stride })

-- When `main` accepts the options and its assertions hold, for a test other than LOAD_FROM_MEM_SIZE
-- with 2 to 256 cores, at least one repetition, a stride that is not 0, and seeds from which
-- the generators of cores 0 and 1 draw 0 within the fuel, the threads start as the theorems on whole
-- tests ask: on the first line, which holds 0, with nothing summed, with the `test_stride`
-- lines from the first one on mapped, and with the sample of every repetition allocated.
pub read_options-Start :
    (given : List (ℕ × Text)) (memory : ℕ → ℕ) (s : Settings Cores) (e : Event) (pfd_correction : ℕ)
    (ticks : ℕ → ℕ) (fuel base : ℕ) (c : Config) (seeds : ℕ → Seeds) (w : Lines)
    → read_options given memory ≡ ok s
    → event_of s.test_test ≡ some e
    → configure (options_of e s) pfd_correction ticks fuel base ≡ some c
    → 0 < s.test_stride
    → is_mem_size e ≡ false
    → 2 ≤ s.cores.test_cores
    → s.cores.test_cores ≤ 2 ^ 8
    → 0 < c.test_reps
    → IsLively c (seeds 0)
    → IsLively c (seeds 1)
    → Start c s.cores.test_cores 0 0 (launch c seeds w)
read_options-Start given memory s e k ticks fuel base c seeds w read event accepted stride other two
      few runs lively0 lively1 =
    let valid = read_options-IsValid given memory s read in
    launch-Start (options_of e s) k ticks fuel base c seeds w accepted stride
      (IsStride-lt s.test_stride valid.stride) other two few runs lively0 lively1

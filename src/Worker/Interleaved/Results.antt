-- ===== src/Worker/Interleaved/Results.antt =====
-- What the tests of two cores measure when their barriers are calls of `barrier_wait`.
use altered_ccbench_fork.Common.{
  ℕ, ◌+◌, ◌-◌, ◌*◌, ◌/◌, ◌%◌, ◌^◌, ◌≤◌, ◌<◌, ◌≡◌, arith, if◌then◌else◌,
}
use altered_ccbench_fork.Machine.{Config}
use altered_ccbench_fork.Worker.Event
use altered_ccbench_fork.Worker.Outcome.Runs.{Start}
use altered_ccbench_fork.Worker.Outcome.Cas.{cas_test_results, cas_test_completes}
use altered_ccbench_fork.Worker.Outcome.Tas.{tas_test_results, tas_test_completes}
use altered_ccbench_fork.Worker.Outcome.Fai.{fai_test_results, fai_test_completes}
use altered_ccbench_fork.Worker.Outcome.CasModified.{
  cas_on_modified_results, cas_on_modified_completes,
}
use altered_ccbench_fork.Worker.Outcome.TasModified.{
  tas_on_modified_results, tas_on_modified_completes,
}
use altered_ccbench_fork.Worker.Interleaved.{State, Quiet}
use altered_ccbench_fork.Worker.Interleaved.Runs.{Runs}
use altered_ccbench_fork.Worker.Interleaved.Transfer.{after_all, some_run}

-- In every run of the test CAS by 2 to 256 threads, with every shared
-- access of `barrier_wait` interleaved, fewer than 2^64 repetitions, on a line that holds 0,
-- with the lines of the stride mapped and generators that draw 0 within the fuel:
-- `cas_0_eventually` always succeeds on core 0 and always fails on core 1: after `k` repetitions
-- the sums are `k` and 0, and the line holds the parity of `k`.
pub cas_outcome :
    {c : Config} {n cl k : ℕ} {calls : ℕ → ℕ} {s f : State}
    → c.test_reps < 2 ^ 64
    → Start c n cl 0 s.team
    → Quiet n calls s
    → Runs c n Event.cas s k f
    → k ≤ c.test_reps
    → ((f.team.locals 0).sum ≡ k) × ((f.team.locals 1).sum ≡ 0) × (f.team.lines cl ≡ k % 2)
cas_outcome {c} {n} {cl} {k} big st q r le =
    after_all (λ l w. ((l 0).sum ≡ k) × ((l 1).sum ≡ 0) × (w cl ≡ k % 2)) (omega (arith, st.two))
      (omega (arith, st.few)) q (λ t r'. cas_test_results big st r' le) r

-- The test CAS by 2 to 256 threads, with calls of `barrier_wait`, a line
-- that holds 0, the lines of the stride mapped and generators that draw 0 within the fuel, has a
-- complete run of every number of repetitions up to `test_reps`, which is below 2^64: no
-- operation in it leaves the mapped lines or the allocated samples, and no thread is left
-- waiting.
pub cas_ends :
    {c : Config} {n cl : ℕ} {calls : ℕ → ℕ} {s : State} (k : ℕ)
    → c.test_reps < 2 ^ 64
    → Start c n cl 0 s.team
    → Quiet n calls s
    → k ≤ c.test_reps
    → (f : State) × Runs c n Event.cas s k f
cas_ends k big st q le =
    some_run (omega (arith, st.two)) (omega (arith, st.few)) q (cas_test_completes k big st le)

-- In every run of the test TAS by 2 to 256 threads, with every shared
-- access of `barrier_wait` interleaved, fewer than 2^64 repetitions, on a line that holds 0,
-- with the lines of the stride mapped and generators that draw 0 within the fuel: `tas` always
-- succeeds on core 0 and always fails on core 1: after `k` repetitions the sums are `k` and 0,
-- and the line holds 0 again.
pub tas_outcome :
    {c : Config} {n cl k : ℕ} {calls : ℕ → ℕ} {s f : State}
    → c.test_reps < 2 ^ 64
    → Start c n cl 0 s.team
    → Quiet n calls s
    → Runs c n Event.tas s k f
    → k ≤ c.test_reps
    → ((f.team.locals 0).sum ≡ k) × ((f.team.locals 1).sum ≡ 0) × (f.team.lines cl ≡ 0)
tas_outcome {c} {n} {cl} {k} big st q r le =
    after_all (λ l w. ((l 0).sum ≡ k) × ((l 1).sum ≡ 0) × (w cl ≡ 0)) (omega (arith, st.two))
      (omega (arith, st.few)) q (λ t r'. tas_test_results big st r' le) r

-- The test TAS by 2 to 256 threads, with calls of `barrier_wait`, a line
-- that holds 0, the lines of the stride mapped and generators that draw 0 within the fuel, has a
-- complete run of every number of repetitions up to `test_reps`, which is below 2^64: no
-- operation in it leaves the mapped lines or the allocated samples, and no thread is left
-- waiting.
pub tas_ends :
    {c : Config} {n cl : ℕ} {calls : ℕ → ℕ} {s : State} (k : ℕ)
    → c.test_reps < 2 ^ 64
    → Start c n cl 0 s.team
    → Quiet n calls s
    → k ≤ c.test_reps
    → (f : State) × Runs c n Event.tas s k f
tas_ends k big st q le =
    some_run (omega (arith, st.two)) (omega (arith, st.few)) q (tas_test_completes k big st le)

-- In every run of the test FAI by 2 to 256 threads, with every shared
-- access of `barrier_wait` interleaved, fewer than 2^31 repetitions, on a line that holds 0,
-- with the lines of the stride mapped and generators that draw 0 within the fuel: no increment
-- is lost: after `k` repetitions the line holds 2 k, and the sums are those of the first `k`
-- even numbers on core 0 and of the first `k` odd numbers on core 1, k * k - k and k * k.
pub fai_outcome :
    {c : Config} {n cl k : ℕ} {calls : ℕ → ℕ} {s f : State}
    → c.test_reps < 2 ^ 31
    → Start c n cl 0 s.team
    → Quiet n calls s
    → Runs c n Event.fai s k f
    → k ≤ c.test_reps
    → ((f.team.locals 0).sum ≡ k * k - k)
      × ((f.team.locals 1).sum ≡ k * k)
      × (f.team.lines cl ≡ 2 * k)
fai_outcome {c} {n} {cl} {k} big st q r le =
    after_all (λ l w. ((l 0).sum ≡ k * k - k) × ((l 1).sum ≡ k * k) × (w cl ≡ 2 * k))
      (omega (arith, st.two)) (omega (arith, st.few)) q (λ t r'. fai_test_results big st r' le) r

-- The test FAI by 2 to 256 threads, with calls of `barrier_wait`, a line
-- that holds 0, the lines of the stride mapped and generators that draw 0 within the fuel, has a
-- complete run of every number of repetitions up to `test_reps`, which is below 2^31: no
-- operation in it leaves the mapped lines or the allocated samples, and no thread is left
-- waiting.
pub fai_ends :
    {c : Config} {n cl : ℕ} {calls : ℕ → ℕ} {s : State} (k : ℕ)
    → c.test_reps < 2 ^ 31
    → Start c n cl 0 s.team
    → Quiet n calls s
    → k ≤ c.test_reps
    → (f : State) × Runs c n Event.fai s k f
fai_ends k big st q le =
    some_run (omega (arith, st.two)) (omega (arith, st.few)) q (fai_test_completes k big st le)

-- In every run of the test CAS_ON_MODIFIED by 2 to 256 threads, with
-- every shared access of `barrier_wait` interleaved, fewer than 2^64 repetitions and a store
-- fence from 0 to 2, on a line that holds 0, with the lines of the stride mapped and generators
-- that draw 0 within the fuel: after `k` repetitions `cas_0_eventually` of core 1 has succeeded
-- `k` times with the option for success and (k + 1) / 2 times, rounded down, without it, and the
-- line holds the parity of `k`.
pub cas_on_modified_outcome :
    {c : Config} {n cl k : ℕ} {calls : ℕ → ℕ} {s f : State}
    → c.test_reps < 2 ^ 64
    → c.test_sfence ≤ 2
    → Start c n cl 0 s.team
    → Quiet n calls s
    → Runs c n Event.cas_on_modified s k f
    → k ≤ c.test_reps
    → ((f.team.locals 0).sum ≡ 0)
      × ((f.team.locals 1).sum ≡ (if c.test_ao_success then k else (k + 1) / 2))
      × (f.team.lines cl ≡ k % 2)
cas_on_modified_outcome {c} {n} {cl} {k} big fence st q r le =
    after_all
      (λ l w.
        ((l 0).sum ≡ 0)
        × ((l 1).sum ≡ (if c.test_ao_success then k else (k + 1) / 2))
        × (w cl ≡ k % 2))
      (omega (arith, st.two)) (omega (arith, st.few)) q
      (λ t r'. cas_on_modified_results big fence st r' le) r

-- The test CAS_ON_MODIFIED by 2 to 256 threads, with calls of
-- `barrier_wait`, a store fence from 0 to 2, a line that holds 0, the lines of the stride mapped
-- and generators that draw 0 within the fuel, has a complete run of every number of repetitions
-- up to `test_reps`, which is below 2^64: no operation in it leaves the mapped lines or the
-- allocated samples, and no thread is left waiting.
pub cas_on_modified_ends :
    {c : Config} {n cl : ℕ} {calls : ℕ → ℕ} {s : State} (k : ℕ)
    → c.test_reps < 2 ^ 64
    → c.test_sfence ≤ 2
    → Start c n cl 0 s.team
    → Quiet n calls s
    → k ≤ c.test_reps
    → (f : State) × Runs c n Event.cas_on_modified s k f
cas_on_modified_ends k big fence st q le =
    some_run (omega (arith, st.two)) (omega (arith, st.few)) q
      (cas_on_modified_completes k big fence st le)

-- In every run of the test TAS_ON_MODIFIED by 2 to 256 threads, with
-- every shared access of `barrier_wait` interleaved, fewer than 2^64 repetitions and a store
-- fence from 0 to 2, on a line that holds 0, with the lines of the stride mapped and generators
-- that draw 0 within the fuel: after `k` repetitions `tas` of core 1 has succeeded `k` times
-- with the option for success and never without it.
pub tas_on_modified_outcome :
    {c : Config} {n cl k : ℕ} {calls : ℕ → ℕ} {s f : State}
    → c.test_reps < 2 ^ 64
    → c.test_sfence ≤ 2
    → Start c n cl 0 s.team
    → Quiet n calls s
    → Runs c n Event.tas_on_modified s k f
    → k ≤ c.test_reps
    → ((f.team.locals 0).sum ≡ 0) × ((f.team.locals 1).sum ≡ (if c.test_ao_success then k else 0))
tas_on_modified_outcome {c} {n} {cl} {k} big fence st q r le =
    after_all (λ l w. ((l 0).sum ≡ 0) × ((l 1).sum ≡ (if c.test_ao_success then k else 0)))
      (omega (arith, st.two)) (omega (arith, st.few)) q
      (λ t r'. tas_on_modified_results big fence st r' le) r

-- The test TAS_ON_MODIFIED by 2 to 256 threads, with calls of
-- `barrier_wait`, a store fence from 0 to 2, a line that holds 0, the lines of the stride mapped
-- and generators that draw 0 within the fuel, has a complete run of every number of repetitions
-- up to `test_reps`, which is below 2^64: no operation in it leaves the mapped lines or the
-- allocated samples, and no thread is left waiting.
pub tas_on_modified_ends :
    {c : Config} {n cl : ℕ} {calls : ℕ → ℕ} {s : State} (k : ℕ)
    → c.test_reps < 2 ^ 64
    → c.test_sfence ≤ 2
    → Start c n cl 0 s.team
    → Quiet n calls s
    → k ≤ c.test_reps
    → (f : State) × Runs c n Event.tas_on_modified s k f
tas_on_modified_ends k big fence st q le =
    some_run (omega (arith, st.two)) (omega (arith, st.few)) q
      (tas_on_modified_completes k big fence st le)

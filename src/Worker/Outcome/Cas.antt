-- ===== src/Worker/Outcome/Cas.antt =====
-- The test CAS: core 0 compares and swaps before the barrier, core 1 after it.
use altered_ccbench_fork.Common.{
  ℕ, zero, suc, ◌+◌, ◌%◌, ◌^◌, ◌≤◌, ◌<◌, ◌≡◌, arith, refl, [], ◌∷◌, ◌++◌, ap, bit_and-one,
}
use altered_ccbench_fork.Machine.{Config, u64, Local, Lines}
use altered_ccbench_fork.Access.Sequential.{InRange}
use altered_ccbench_fork.Access.{expected, replacement}
use altered_ccbench_fork.Worker.Event
use altered_ccbench_fork.Worker.Program.{test_body, cas_0_eventually, barrier, b3}
use altered_ccbench_fork.Worker.Round.{Team, exec_all}
use altered_ccbench_fork.Worker.Round.Handoff.{Handoff}
use altered_ccbench_fork.Worker.Outcome.Calls.{Ready, Leaves, exec-cas, exec_all-one, Leaves-to}
use altered_ccbench_fork.Worker.Outcome.Runs.{
  opened, Runs, Start, Plan, Plan-results, Plan-completes,
}

pub expected-mod : (c : Config) (reps : ℕ) → expected c reps ≡ reps % 2
unfolding expected
expected-mod c reps = bit_and-one reps

pub replacement-mod : (c : Config) (reps : ℕ) → replacement c reps ≡ (reps + 1) % 2
unfolding replacement
replacement-mod c reps = ground (arith, expected-mod c reps)

module _ (c : Config) (cl k s : ℕ) (range : InRange c cl k) (l : Local) (w : Lines)
    (ready : Ready c cl s l) where
  pub cas_hit :
      w cl ≡ k % 2
      → Leaves c cl (u64 (s + 1)) ((k + 1) % 2) (exec_all c k (cas_0_eventually ∷ []) l w)
  cas_hit e = exec_all-one c k cl _ _ cas_0_eventually l w (
      Leaves-to c cl _ (exec-cas c k cl s range l w ready) (rw (e, expected-mod c k) (ground arith))
        (rw (e, expected-mod c k, replacement-mod c k) (ground arith)))

  pub cas_miss :
      w cl ≡ (k + 1) % 2
      → Leaves c cl (u64 s) ((k + 1) % 2) (exec_all c k (cas_0_eventually ∷ []) l w)
  cas_miss e = exec_all-one c k cl _ _ cas_0_eventually l w (
      Leaves-to c cl _ (exec-cas c k cl s range l w ready) (rw (e, expected-mod c k) (ground arith))
        (rw (e, expected-mod c k) (ground arith)))

cas_others : (c : Config) (k i : ℕ) → 2 ≤ i → test_body c i k Event.cas ≡ barrier 2 ∷ []
unfolding test_body
cas_others c k zero low = absurd (omega arith)
cas_others c k (suc zero) low = absurd (omega arith)
cas_others c k (suc (suc i)) low = refl

-- The shape of a round.
pub cas-Handoff :
    (c : Config) (n k : ℕ) (s : Team)
    → Handoff n (cas_0_eventually ∷ []) (cas_0_eventually ∷ []) 2 (4 ∷ []) (opened c Event.cas k s)
unfolding test_body
cas-Handoff c n k s = record {
  zeroth = refl;
  oneth = refl;
  others = λ i low lt. ap (λ p. p ++ b3 ∷ []) (cas_others c k i low);
}

cas-Plan :
    (c : Config) (n cl : ℕ)
    → c.test_reps < 2 ^ 64
    → Plan c n cl Event.cas (λ k. k) (λ k. 0) (λ k. k % 2)
cas-Plan c n cl big = record {
  first = λ k. cas_0_eventually ∷ [];
  second = λ k. cas_0_eventually ∷ [];
  rest = 4 ∷ [];
  between = λ k. (k + 1) % 2;
  from_zero = (refl, refl);
  shape = λ k s. cas-Handoff c n k s;
  before = λ k l w lt range ready e.
      Leaves-to c cl _ (cas_hit c cl k k range l w ready e) (omega arith) refl;
  behind = λ k l w lt range ready e.
      Leaves-to c cl _ (cas_miss c cl k 0 range l w ready e) refl (omega arith);
}

-- In every interleaving of the test CAS with fewer than 2^64 repetitions, started by 2 to 256
-- threads on a line that holds 0, with the lines of the stride mapped and generators that draw 0
-- within the fuel, `cas_0_eventually` always succeeds on core 0 and always fails on core 1: after
-- `k` repetitions the sums are `k` and 0, and the line holds the parity of `k`.
pub cas_test_results :
    {c : Config} {n cl k : ℕ} {s t : Team}
    → c.test_reps < 2 ^ 64
    → Start c n cl 0 s
    → Runs c n Event.cas s k t
    → k ≤ c.test_reps
    → ((t.locals 0).sum ≡ k) × ((t.locals 1).sum ≡ 0) × (t.lines cl ≡ k % 2)
cas_test_results {c} {n} {cl} big st r le =
    let a = Plan-results (cas-Plan c n cl big) st r le in (a.zeroth.total, a.oneth.total, a.word)

-- The test CAS, started by 2 to 256 threads on a line that holds 0, with the lines of the
-- stride mapped and generators that draw 0 within the fuel, has a complete run of every number of
-- repetitions up to `test_reps`, which is below 2^64: no operation in it leaves the mapped lines
-- or the allocated samples, and no thread is left waiting.
pub cas_test_completes :
    {c : Config} {n cl : ℕ} {s : Team} (k : ℕ)
    → c.test_reps < 2 ^ 64
    → Start c n cl 0 s
    → k ≤ c.test_reps
    → (t : Team) × Runs c n Event.cas s k t
cas_test_completes {c} {n} {cl} {s} k big st le = Plan-completes (cas-Plan c n cl big) s k st le

-- ===== src/Worker/Outcome/Fai.antt =====
-- The test FAI: core 0 increments before the barrier, core 1 after it.
use native.Mathlib.Nat.{mul-le-mul}
use altered_ccbench_fork.Common.{
  ℕ, zero, suc, ◌+◌, ◌-◌, ◌*◌, ◌^◌, ◌≤◌, ◌<◌, ◌≡◌, arith, refl, [], ◌∷◌, ◌++◌, ap,
}
use altered_ccbench_fork.Machine.{Config, u64, u32, Local, Lines}
use altered_ccbench_fork.Access.Sequential.{InRange}
use altered_ccbench_fork.Worker.Event
use altered_ccbench_fork.Worker.Program.{test_body, fai, barrier, b3}
use altered_ccbench_fork.Worker.Round.{Team, exec_all}
use altered_ccbench_fork.Worker.Round.Handoff.{Handoff}
use altered_ccbench_fork.Worker.Outcome.Calls.{Ready, Leaves, exec-fai, exec_all-one, Leaves-to}
use altered_ccbench_fork.Worker.Outcome.Runs.{
  opened, Runs, Start, Plan, Plan-results, Plan-completes,
}

fai_on :
    (c : Config) (cl k s : ℕ)
    → InRange c cl k
    → (l : Local) (w : Lines) → Ready c cl s l
    → (v : ℕ) → w cl ≡ v
    → Leaves c cl (u64 (s + v)) (u32 (v + 1)) (exec_all c k (fai ∷ []) l w)
fai_on c cl k s range l w ready v e =
    exec_all-one c k cl _ _ fai l w
      (Leaves-to c cl _ (exec-fai c k cl s range l w ready) (rw e refl) (rw e refl))

-- The sums stay within 64 bits.
square_lt : (k : ℕ) → k < 2 ^ 31 → k * k + (2 * k + 1) < 2 ^ 64
square_lt k lt =
    let bound : k * k ≤ 2 ^ 31 * 2 ^ 31 =
      mul-le-mul {n₂ = 2 ^ 31} {m₂ = 2 ^ 31} (omega arith) (omega arith) in
    omega (arith, bound)

square-suc : (k : ℕ) → suc k * suc k ≡ k * k + (2 * k + 1)
square-suc k = grind arith

k-le_square : (k : ℕ) → k ≤ k * k
k-le_square zero = omega arith
k-le_square (suc k) = omega (arith, square-suc k)

fai_others : (c : Config) (k i : ℕ) → 2 ≤ i → test_body c i k Event.fai ≡ barrier 2 ∷ []
unfolding test_body
fai_others c k zero low = absurd (omega arith)
fai_others c k (suc zero) low = absurd (omega arith)
fai_others c k (suc (suc i)) low = refl

fai-Handoff :
    (c : Config) (n k : ℕ) (s : Team)
    → Handoff n (fai ∷ []) (fai ∷ []) 2 (4 ∷ []) (opened c Event.fai k s)
unfolding test_body
fai-Handoff c n k s = record {
  zeroth = refl;
  oneth = refl;
  others = λ i low lt. ap (λ p. p ++ b3 ∷ []) (fai_others c k i low);
}

fai-Plan :
    (c : Config) (n cl : ℕ)
    → c.test_reps < 2 ^ 31
    → Plan c n cl Event.fai (λ k. k * k - k) (λ k. k * k) (λ k. 2 * k)
fai-Plan c n cl big = record {
  first = λ k. fai ∷ [];
  second = λ k. fai ∷ [];
  rest = 4 ∷ [];
  between = λ k. 2 * k + 1;
  from_zero = (refl, refl);
  shape = λ k s. fai-Handoff c n k s;
  before = λ k l w lt range ready e.
      Leaves-to c cl _ (fai_on c cl k (k * k - k) range l w ready (2 * k) e)
        (omega (arith, square_lt k (omega arith), square-suc k, k-le_square k)) (omega arith);
  behind = λ k l w lt range ready e.
      Leaves-to c cl _ (fai_on c cl k (k * k) range l w ready (2 * k + 1) e)
        (omega (arith, square_lt k (omega arith), square-suc k)) (omega arith);
}

-- In every interleaving of the test FAI with fewer than 2^31 repetitions, started by 2 to 256
-- threads on a line that holds 0, with the lines of the stride mapped and generators that draw 0
-- within the fuel, no increment is lost: after `k` repetitions the line holds 2 k, and the sums
-- are those of the first `k` even numbers on core 0 and of the first `k` odd numbers on core 1, k
-- * k - k and k * k.
pub fai_test_results :
    {c : Config} {n cl k : ℕ} {s t : Team}
    → c.test_reps < 2 ^ 31
    → Start c n cl 0 s
    → Runs c n Event.fai s k t
    → k ≤ c.test_reps
    → ((t.locals 0).sum ≡ k * k - k) × ((t.locals 1).sum ≡ k * k) × (t.lines cl ≡ 2 * k)
fai_test_results {c} {n} {cl} big st r le =
    let a = Plan-results (fai-Plan c n cl big) st r le in (a.zeroth.total, a.oneth.total, a.word)

-- The test FAI, started by 2 to 256 threads on a line that holds 0, with the lines of the
-- stride mapped and generators that draw 0 within the fuel, has a complete run of every number of
-- repetitions up to `test_reps`, which is below 2^31: no operation in it leaves the mapped lines
-- or the allocated samples, and no thread is left waiting.
pub fai_test_completes :
    {c : Config} {n cl : ℕ} {s : Team} (k : ℕ)
    → c.test_reps < 2 ^ 31
    → Start c n cl 0 s
    → k ≤ c.test_reps
    → (t : Team) × Runs c n Event.fai s k t
fai_test_completes {c} {n} {cl} {s} k big st le = Plan-completes (fai-Plan c n cl big) s k st le

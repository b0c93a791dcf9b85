-- ===== src/Worker/Outcome/Tas.antt =====
-- The test TAS: core 0 sets the lock byte before the barrier, core 1 finds it set and clears it.
use altered_ccbench_fork.Common.{
  ℕ, zero, suc, ◌+◌, ◌^◌, ◌≤◌, ◌<◌, ◌≡◌, arith, refl, [], ◌∷◌, ◌++◌, ap,
}
use altered_ccbench_fork.Machine.{Config, u64, Local, Lines}
use altered_ccbench_fork.Access.Sequential.{InRange}
use altered_ccbench_fork.Worker.Event
use altered_ccbench_fork.Worker.Program.{test_body, tas, full_fence, write_word, barrier, b3}
use altered_ccbench_fork.Worker.Round.{Team, exec_all}
use altered_ccbench_fork.Worker.Round.Handoff.{Handoff}
use altered_ccbench_fork.Worker.Outcome.Calls.{
  Ready, Leaves, exec-tas, exec-full_fence, exec-write_word, exec_all-one, exec_all-two, Leaves-to,
}
use altered_ccbench_fork.Worker.Outcome.Runs.{
  opened, Runs, Start, Plan, Plan-results, Plan-completes,
}

module _ (c : Config) (cl k s : ℕ) (range : InRange c cl k) where
  tas_hit :
      (l : Local) (w : Lines)
      → Ready c cl s l
      → w cl ≡ 0
      → Leaves c cl (u64 (s + 1)) 255 (exec_all c k (tas ∷ []) l w)
  tas_hit l w ready e = exec_all-one c k cl _ _ tas l w (
      Leaves-to c cl _ (exec-tas c k cl s range l w ready) (rw e (ground arith))
        (rw e (ground arith)))

  clear_line :
      (l : Local) (w : Lines)
      → Ready c cl s l
      → Leaves c cl s 0 (exec_all c k (full_fence ∷ write_word 0 ∷ []) l w)
  clear_line l w ready =
      exec_all-two c k cl s s (w cl) 0 full_fence (write_word 0 ∷ []) l w
        (exec-full_fence c k cl s range l w ready)
        (λ l' w' ready' e.
          exec_all-one c k cl s 0 (write_word 0) l' w'
            (exec-write_word c k cl s range l' w' ready' 0))

module _ (c : Config) (cl k : ℕ) (range : InRange c cl k) (l : Local) (w : Lines)
    (ready : Ready c cl 0 l) where
  tas_miss : w cl ≡ 255 → Leaves c cl 0 0 (exec_all c k (tas ∷ full_fence ∷ write_word 0 ∷ []) l w)
  tas_miss e =
      exec_all-two c k cl 0 0 255 0 tas (full_fence ∷ write_word 0 ∷ []) l w
        (Leaves-to c cl _ (exec-tas c k cl 0 range l w ready) (rw e (ground arith))
          (rw e (ground arith)))
        (λ l' w' ready' e'. clear_line c cl k 0 range l' w' ready')

tas_others : (c : Config) (k i : ℕ) → 2 ≤ i → test_body c i k Event.tas ≡ barrier 2 ∷ barrier 3 ∷ []
unfolding test_body
tas_others c k zero low = absurd (omega arith)
tas_others c k (suc zero) low = absurd (omega arith)
tas_others c k (suc (suc i)) low = refl

tas-Handoff :
    (c : Config) (n k : ℕ) (s : Team)
    → Handoff n
        (tas ∷ [])
        (tas ∷ full_fence ∷ write_word 0 ∷ [])
        2
        (3 ∷ 4 ∷ [])
        (opened c Event.tas k s)
unfolding test_body
tas-Handoff c n k s = record {
  zeroth = refl;
  oneth = refl;
  others = λ i low lt. ap (λ p. p ++ b3 ∷ []) (tas_others c k i low);
}

tas-Plan :
    (c : Config) (n cl : ℕ)
    → c.test_reps < 2 ^ 64
    → Plan c n cl Event.tas (λ k. k) (λ k. 0) (λ k. 0)
tas-Plan c n cl big = record {
  first = λ k. tas ∷ [];
  second = λ k. tas ∷ full_fence ∷ write_word 0 ∷ [];
  rest = 3 ∷ 4 ∷ [];
  between = λ k. 255;
  from_zero = (refl, refl);
  shape = λ k s. tas-Handoff c n k s;
  before = λ k l w lt range ready e.
      Leaves-to c cl _ (tas_hit c cl k k range l w ready e) (omega arith) refl;
  behind = λ k l w lt range ready e. tas_miss c cl k range l w ready e;
}

-- In every interleaving of the test TAS with fewer than 2^64 repetitions, started by 2 to 256
-- threads on a line that holds 0, with the lines of the stride mapped and generators that draw 0
-- within the fuel, `tas` always succeeds on core 0 and always fails on core 1: after `k`
-- repetitions the sums are `k` and 0, and the line holds 0 again.
pub tas_test_results :
    {c : Config} {n cl k : ℕ} {s t : Team}
    → c.test_reps < 2 ^ 64
    → Start c n cl 0 s
    → Runs c n Event.tas s k t
    → k ≤ c.test_reps
    → ((t.locals 0).sum ≡ k) × ((t.locals 1).sum ≡ 0) × (t.lines cl ≡ 0)
tas_test_results {c} {n} {cl} big st r le =
    let a = Plan-results (tas-Plan c n cl big) st r le in (a.zeroth.total, a.oneth.total, a.word)

-- The test TAS, started by 2 to 256 threads on a line that holds 0, with the lines of the
-- stride mapped and generators that draw 0 within the fuel, has a complete run of every number of
-- repetitions up to `test_reps`, which is below 2^64: no operation in it leaves the mapped lines
-- or the allocated samples, and no thread is left waiting.
pub tas_test_completes :
    {c : Config} {n cl : ℕ} {s : Team} (k : ℕ)
    → c.test_reps < 2 ^ 64
    → Start c n cl 0 s
    → k ≤ c.test_reps
    → (t : Team) × Runs c n Event.tas s k t
tas_test_completes {c} {n} {cl} {s} k big st le = Plan-completes (tas-Plan c n cl big) s k st le

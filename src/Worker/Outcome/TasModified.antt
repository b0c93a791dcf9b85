-- ===== src/Worker/Outcome/TasModified.antt =====
-- The test TAS_ON_MODIFIED.
use altered_ccbench_fork.Common.{
  ℕ, ◌^◌, ◌≤◌, ◌<◌, ◌≡◌, arith, refl, if◌then◌else◌, ◌==◌, [], ◌∷◌, Bool-cases, inl, inr, true,
  false,
}
use altered_ccbench_fork.Machine.{Config}
use altered_ccbench_fork.Worker.Event
use altered_ccbench_fork.Worker.Program.{tas, store_0_eventually, write_word, full_fence}
use altered_ccbench_fork.Worker.Round.{Team}
use altered_ccbench_fork.Worker.Outcome.Calls.{Leaves-to}
use altered_ccbench_fork.Worker.Outcome.Modified.{
  stored, stored_word_fence, tas_on, free-Handoff, taken-Handoff,
}
use altered_ccbench_fork.Worker.Outcome.Runs.{Runs, Start, Plan, Plan-results, Plan-completes}

module _ (c : Config) (n cl : ℕ) (big : c.test_reps < 2 ^ 64) (fence : c.test_sfence ≤ 2) where
  free-Plan :
      c.test_ao_success ≡ true
      → Plan c n cl Event.tas_on_modified (λ k. 0) (λ k. k) (λ k. if k == 0 then 0 else 255)
  free-Plan ao = record {
    first = λ k. store_0_eventually ∷ [];
    second = λ k. tas ∷ [];
    rest = 4 ∷ [];
    between = λ k. 0;
    from_zero = (refl, refl);
    shape = λ k s. free-Handoff c k n s ao;
    before = λ k l w lt range ready e. stored c cl k 0 range l w ready fence;
    behind = λ k l w lt range ready e.
        Leaves-to c cl _ (tas_on c cl k k range l w ready 0 e) (omega arith) (ground arith);
  }

  taken-Plan :
      c.test_ao_success ≡ false
      → Plan c n cl Event.tas_on_modified (λ k. 0) (λ k. 0) (λ k. if k == 0 then 0 else 0xFFFFFFFF)
  taken-Plan ao = record {
    first = λ k. store_0_eventually ∷ write_word 0xFFFFFFFF ∷ full_fence ∷ [];
    second = λ k. tas ∷ [];
    rest = 4 ∷ [];
    between = λ k. 0xFFFFFFFF;
    from_zero = (refl, refl);
    shape = λ k s. taken-Handoff c k n s ao;
    before = λ k l w lt range ready e. stored_word_fence c cl k 0 range l w ready 0xFFFFFFFF fence;
    behind = λ k l w lt range ready e.
        Leaves-to c cl _ (tas_on c cl k 0 range l w ready 0xFFFFFFFF e) (ground arith)
          (ground arith);
  }

-- In every interleaving of the test TAS_ON_MODIFIED with fewer than 2^64 repetitions and a store
-- fence from 0 to 2, started by 2 to 256 threads on a line that holds 0, with the lines of the
-- stride mapped and generators that draw 0 within the fuel: after `k` repetitions `tas` of core 1
-- has succeeded `k` times with the option for success and never without it.
pub tas_on_modified_results :
    {c : Config} {n cl k : ℕ} {s t : Team}
    → c.test_reps < 2 ^ 64
    → c.test_sfence ≤ 2
    → Start c n cl 0 s
    → Runs c n Event.tas_on_modified s k t
    → k ≤ c.test_reps
    → ((t.locals 0).sum ≡ 0) × ((t.locals 1).sum ≡ (if c.test_ao_success then k else 0))
tas_on_modified_results {c} {n} {cl} big fence st r le = elim (Bool-cases c.test_ao_success) [
  | inl ao ↦
      let a = Plan-results (free-Plan c n cl big fence ao) st r le in
      (a.zeroth.total, rw ao (a.oneth.total))
  | inr ao ↦
      let a = Plan-results (taken-Plan c n cl big fence ao) st r le in
      (a.zeroth.total, rw ao (a.oneth.total))
]

-- The test TAS_ON_MODIFIED, with a store fence from 0 to 2, started by 2 to 256 threads on a
-- line that holds 0, with the lines of the stride mapped and generators that draw 0 within the
-- fuel, has a complete run of every number of repetitions up to `test_reps`, which is below 2^64:
-- no operation in it leaves the mapped lines or the allocated samples, and no thread is left
-- waiting.
pub tas_on_modified_completes :
    {c : Config} {n cl : ℕ} {s : Team} (k : ℕ)
    → c.test_reps < 2 ^ 64
    → c.test_sfence ≤ 2
    → Start c n cl 0 s
    → k ≤ c.test_reps
    → (t : Team) × Runs c n Event.tas_on_modified s k t
tas_on_modified_completes {c} {n} {cl} {s} k big fence st le = elim (Bool-cases c.test_ao_success) [
  | inl ao ↦ Plan-completes (free-Plan c n cl big fence ao) s k st le
  | inr ao ↦ Plan-completes (taken-Plan c n cl big fence ao) s k st le
]

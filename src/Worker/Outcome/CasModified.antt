-- ===== src/Worker/Outcome/CasModified.antt =====
-- The test CAS_ON_MODIFIED.
use altered_ccbench_fork.Common.{
  ℕ, ◌+◌, ◌/◌, ◌%◌, ◌^◌, ◌≤◌, ◌<◌, ◌≡◌, arith, refl, if◌then◌else◌, [], ◌∷◌, Bool-cases, inl, inr,
  true, false, bit_and-one,
}
use Prim.Native.Nat.{bit_and}
use altered_ccbench_fork.Machine.{Config}
use altered_ccbench_fork.Worker.Event
use altered_ccbench_fork.Worker.Program.{cas_0_eventually, store_0_eventually, write_word}
use altered_ccbench_fork.Worker.Round.{Team}
use altered_ccbench_fork.Worker.Outcome.Calls.{Leaves-to}
use altered_ccbench_fork.Worker.Outcome.Modified.{
  stored, stored_word, cas_on, success-Handoff, plain-Handoff,
}
use altered_ccbench_fork.Worker.Outcome.Runs.{Runs, Start, Plan, Plan-results, Plan-completes}

module _ (c : Config) (n cl : ℕ) (big : c.test_reps < 2 ^ 64) (fence : c.test_sfence ≤ 2) where
  -- With the option for success, core 0 also writes the value that core 1 expects.
  success-Plan :
      c.test_ao_success ≡ true → Plan c n cl Event.cas_on_modified (λ k. 0) (λ k. k) (λ k. k % 2)
  success-Plan ao = record {
    first = λ k. store_0_eventually ∷ write_word (bit_and k 1) ∷ [];
    second = λ k. cas_0_eventually ∷ [];
    rest = 4 ∷ [];
    between = λ k. k % 2;
    from_zero = (refl, refl);
    shape = λ k s. success-Handoff c k n s ao;
    before = λ k l w lt range ready e.
        Leaves-to c cl _ (stored_word c cl k 0 range l w ready (bit_and k 1) fence) refl
          (bit_and-one k);
    behind = λ k l w lt range ready e.
        Leaves-to c cl _ (cas_on c cl k k range l w ready (k % 2) e) (ground arith) (ground arith);
  }

  -- Without it the line holds 0, which core 1 expects in the even repetitions.
  plain-Plan :
      c.test_ao_success ≡ false
      → Plan c n cl Event.cas_on_modified (λ k. 0) (λ k. (k + 1) / 2) (λ k. k % 2)
  plain-Plan ao = record {
    first = λ k. store_0_eventually ∷ [];
    second = λ k. cas_0_eventually ∷ [];
    rest = 4 ∷ [];
    between = λ k. 0;
    from_zero = (refl, refl);
    shape = λ k s. plain-Handoff c k n s ao;
    before = λ k l w lt range ready e. stored c cl k 0 range l w ready fence;
    behind = λ k l w lt range ready e.
        Leaves-to c cl _ (cas_on c cl k ((k + 1) / 2) range l w ready 0 e) (ground arith)
          (ground arith);
  }

-- In every interleaving of the test CAS_ON_MODIFIED with fewer than 2^64 repetitions and a store
-- fence from 0 to 2, started by 2 to 256 threads on a line that holds 0, with the lines of the
-- stride mapped and generators that draw 0 within the fuel: after `k` repetitions
-- `cas_0_eventually` of core 1 has succeeded `k` times with the option for success and (k + 1) / 2
-- times, rounded down, without it, and the line holds the parity of `k`.
pub cas_on_modified_results :
    {c : Config} {n cl k : ℕ} {s t : Team}
    → c.test_reps < 2 ^ 64
    → c.test_sfence ≤ 2
    → Start c n cl 0 s
    → Runs c n Event.cas_on_modified s k t
    → k ≤ c.test_reps
    → ((t.locals 0).sum ≡ 0)
      × ((t.locals 1).sum ≡ (if c.test_ao_success then k else (k + 1) / 2))
      × (t.lines cl ≡ k % 2)
cas_on_modified_results {c} {n} {cl} big fence st r le = elim (Bool-cases c.test_ao_success) [
  | inl ao ↦
      let a = Plan-results (success-Plan c n cl big fence ao) st r le in
      (a.zeroth.total, rw ao (a.oneth.total), a.word)
  | inr ao ↦
      let a = Plan-results (plain-Plan c n cl big fence ao) st r le in
      (a.zeroth.total, rw ao (a.oneth.total), a.word)
]

-- The test CAS_ON_MODIFIED, with a store fence from 0 to 2, started by 2 to 256 threads on a
-- line that holds 0, with the lines of the stride mapped and generators that draw 0 within the
-- fuel, has a complete run of every number of repetitions up to `test_reps`, which is below 2^64:
-- no operation in it leaves the mapped lines or the allocated samples, and no thread is left
-- waiting.
pub cas_on_modified_completes :
    {c : Config} {n cl : ℕ} {s : Team} (k : ℕ)
    → c.test_reps < 2 ^ 64
    → c.test_sfence ≤ 2
    → Start c n cl 0 s
    → k ≤ c.test_reps
    → (t : Team) × Runs c n Event.cas_on_modified s k t
cas_on_modified_completes {c} {n} {cl} {s} k big fence st le = elim (Bool-cases c.test_ao_success) [
  | inl ao ↦ Plan-completes (success-Plan c n cl big fence ao) s k st le
  | inr ao ↦ Plan-completes (plain-Plan c n cl big fence ao) s k st le
]

-- ===== src/Worker/Legend/Share.antt =====
-- The share of successes in the legend and in what the threads sum.
use altered_ccbench_fork.Common.{
  ℕ, ◌+◌, ◌*◌, ◌/◌, ◌^◌, ◌≤◌, ◌<◌, ◌≡◌, ◌⊎◌, inl, inr, arith, if◌then◌else◌, Bool, true, false,
}
use altered_ccbench_fork.Machine.{Config}
use altered_ccbench_fork.Worker.Event
use altered_ccbench_fork.Worker.Outcome.Runs.{Start}
use altered_ccbench_fork.Worker.Interleaved.{State, Quiet}
use altered_ccbench_fork.Worker.Interleaved.Runs.{Runs}
use altered_ccbench_fork.Worker.Interleaved.Results.{
  cas_on_modified_outcome, tas_on_modified_outcome,
}
use altered_ccbench_fork.Worker.Legend.{succ}

-- The share of `k` operations that have the sum `total`, up to half an operation.
abbrev IsShare : Event.Event → Bool → ℕ → ℕ → Type 0
IsShare e ao k total = (succ e ao * k ≤ 100 * total) × (100 * total ≤ succ e ao * k + 50)

cas-IsShare :
    (ao : Bool) (k total : ℕ)
    → total ≡ (if ao then k else (k + 1) / 2)
    → IsShare Event.cas_on_modified ao k total
unfolding succ
cas-IsShare true k total e = omega (arith, e)
cas-IsShare false k total e = omega (arith, e)

tas-IsShare :
    (ao : Bool) (k total : ℕ)
    → total ≡ (if ao then k else 0)
    → IsShare Event.tas_on_modified ao k total
unfolding succ
tas-IsShare true k total e = omega (arith, e)
tas-IsShare false k total e = omega (arith, e)

module _ {c : Config} {n cl k : ℕ} {calls : ℕ → ℕ} {s f : State} (big : c.test_reps < 2 ^ 64)
    (fence : c.test_sfence ≤ 2) (st : Start c n cl 0 s.team) (quiet : Quiet n calls s)
    (le : k ≤ c.test_reps) where
  -- In every run of CAS_ON_MODIFIED or TAS_ON_MODIFIED by 2 to 256 threads,
  -- with every shared access of `barrier_wait` interleaved, fewer than 2^64 repetitions and a store
  -- fence from 0 to 2, on a line that holds 0, with the lines of the stride mapped and generators
  -- that draw 0 within the fuel: the share of successes that the legend shows for core 1 is the one
  -- of its sum after `k` repetitions, up to half an operation.
  pub legend_share :
      {e : Event.Event}
      → (e ≡ Event.cas_on_modified) ⊎ (e ≡ Event.tas_on_modified)
      → Runs c n e s k f
      → (succ e c.test_ao_success * k ≤ 100 * (f.team.locals 1).sum)
        × (100 * (f.team.locals 1).sum ≤ succ e c.test_ao_success * k + 50)
  legend_share (inl h) r =
      let (e0, e1, e2) = cas_on_modified_outcome big fence st quiet (rw h at r) le in
      rw h (cas-IsShare c.test_ao_success k (f.team.locals 1).sum e1)
  legend_share (inr h) r =
      let (e0, e1) = tas_on_modified_outcome big fence st quiet (rw h at r) le in
      rw h (tas-IsShare c.test_ao_success k (f.team.locals 1).sum e1)

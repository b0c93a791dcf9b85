-- ===== src/Worker/Interleaved/Transfer.antt =====
-- The runs with calls of `barrier_wait` and those with common barriers, side by side.
use altered_ccbench_fork.Common.{ℕ, ◌^◌, ◌<◌, ◌≡◌, ◌∙◌, ◌↔◌}
use altered_ccbench_fork.Machine.{Config, Local, Lines}
use altered_ccbench_fork.Worker.Event
use altered_ccbench_fork.Worker.Round.{Team}
use altered_ccbench_fork.Worker.Outcome.Runs as Common
use altered_ccbench_fork.Worker.Outcome.Runs.{Start}
use altered_ccbench_fork.Worker.Interleaved.{State, Quiet}
use altered_ccbench_fork.Worker.Interleaved.Runs.{Runs}
use altered_ccbench_fork.Worker.Interleaved.Refinement.{Runs-refined}
use altered_ccbench_fork.Worker.Interleaved.Realisation.{Runs-realised}

module _ {c : Config} {n : ℕ} {e : Event.Event} {k : ℕ} {calls : ℕ → ℕ} {s : State} where
  -- For more than 0 and fewer than 2^64 threads that start outside of every call of `barrier_wait`,
  -- having returned from equally many calls of each barrier: the variables and the lines that `k`
  -- complete repetitions of a test, one after the other, can leave, with every shared access of
  -- `barrier_wait` interleaved, are those that they can leave when all threads pass each barrier
  -- together. A repetition is the one of the code, from the flush before B0 to B3, with the rank
  -- modulo 256 for `ID`.
  pub Runs_iff :
      0 < n
      → n < 2 ^ 64
      → Quiet n calls s
      → (l : ℕ → Local) (w : Lines)
      → ((f : State) × (Runs c n e s k f) × (f.team.locals ≡ l) × (f.team.lines ≡ w))
        ↔ ((t : Team) × (Common.Runs c n e s.team k t) × (t.locals ≡ l) × (t.lines ≡ w))
  Runs_iff pos small q l w = (
    λ (f, r, el, ew).
        let (t, r', el', ew', z) = Runs-refined c n small pos e calls s q r in
        (t, r', el' ∙ el, ew' ∙ ew),
    λ (t, r, el, ew).
        let (f, r', el', ew', z) = Runs-realised c n small pos e calls s q r in
        (f, r', el' ∙ el, ew' ∙ ew),
  )

  -- What holds after all runs with common barriers holds after all with calls of `barrier_wait`.
  pub after_all :
      (P : (ℕ → Local) → Lines → Type 0)
      → 0 < n
      → n < 2 ^ 64
      → Quiet n calls s
      → ((t : Team) → Common.Runs c n e s.team k t → P t.locals t.lines)
      → {f : State} → Runs c n e s k f
      → P f.team.locals f.team.lines
  after_all P pos small q all r =
      let (t, r', el, ew, z) = Runs-refined c n small pos e calls s q r in rw (el, ew) at (all t r')

  pub some_run :
      0 < n
      → n < 2 ^ 64
      → Quiet n calls s
      → (t : Team) × Common.Runs c n e s.team k t
      → (f : State) × Runs c n e s k f
  some_run pos small q (t, r) =
      let (f, r', el, ew, z) = Runs-realised c n small pos e calls s q r in (f, r')

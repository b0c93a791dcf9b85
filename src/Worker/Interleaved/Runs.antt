-- ===== src/Worker/Interleaved/Runs.antt =====
-- A test of `k` repetitions, round after round, with calls of `barrier_wait`. The barriers go on
-- from one repetition to the next.
use altered_ccbench_fork.Common.{ℕ, suc}
use altered_ccbench_fork.Machine.{Config}
use altered_ccbench_fork.Worker.Event.{Event}
use altered_ccbench_fork.Worker.Round.{Finished}
use altered_ccbench_fork.Worker.Outcome.Runs as Common
use altered_ccbench_fork.Worker.Interleaved.{State, Reach}

abbrev pub begin : Config → Event → ℕ → State → State
begin c e reps s = record s { team = Common.begin c e reps s.team }

-- The states after `k` complete repetitions by `n` threads.
pub data Runs (c : Config) (n : ℕ) (e : Event) (s : State) : ℕ → State → Type 0 where
  none : Runs c n e s 0 s
  more :
      {k : ℕ} {t u : State}
      → Runs c n e s k t
      → Reach c n k (begin c e k t) u
      → Finished n u.team
      → Runs c n e s (suc k) u

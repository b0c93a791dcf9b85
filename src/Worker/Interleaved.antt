-- ===== src/Worker/Interleaved.antt =====
-- The threads of a test over shared lines and shared barriers: a barrier is a call of
-- `barrier_wait`, of which a thread makes one shared access at a time, while the others make theirs
-- or work on.
pub mod Place
pub mod Meeting
pub mod Simulation
pub mod Runs
pub mod Refinement
pub mod Sweep
pub mod Passing
pub mod Realisation
pub mod Transfer
pub mod Results
use altered_ccbench_fork.Common.{ℕ, ◌<◌, ◌≡◌, update, List, [], ◌∷◌, if◌then◌else◌, true}
use altered_ccbench_fork.Machine.{Config, Local, Lines, ok}
use altered_ccbench_fork.Barrier.Moves.{is_outside}
use altered_ccbench_fork.Barrier.System
use altered_ccbench_fork.Worker.Program.{Action, Call, call, barrier}
use altered_ccbench_fork.Worker.Exec.{exec}
use altered_ccbench_fork.Worker.Round.{Team}

pub record State : Type 0 where
  pub team : Team
  pub barriers : ℕ → System.System

-- What is left of a program after an access in its first statement `barrier_wait(b)`: the same
-- program until the call returns.
abbrev pub left_after : System.System → ℕ → ℕ → List Action → List Action
left_after s i b p = if is_outside (s.threads i).pc then p else barrier b ∷ p

-- One call of thread `i`, or one shared access that it makes in `barrier_wait(b)`, for a `b` below
-- `NUM_BARRIERS`.
pub data Step (c : Config) (n reps : ℕ) (s : State) : State → Type 0 where
  run :
      (i : ℕ) {a : Call} {p : List Action} {l : Local} {w : Lines}
      → i < n
      → s.team.programs i ≡ call a ∷ p
      → exec c reps a (s.team.locals i) s.team.lines ≡ ok tt l w
      → Step c n reps s (record s {
        team = record {
          programs = update s.team.programs i p;
          locals = update s.team.locals i l;
          lines = w;
        };
      })
  access :
      (i b : ℕ) {p : List Action}
      → i < n
      → s.team.programs i ≡ barrier b ∷ p
      → Step c n reps s (record {
        team = record s.team {
          programs = update s.team.programs i (left_after (System.advance i (s.barriers b)) i b p);
        };
        barriers = update s.barriers b (System.advance i (s.barriers b));
      })

pub data Reach (c : Config) (n reps : ℕ) (s : State) : State → Type 0 where
  here : Reach c n reps s s
  next : {t u : State} → Reach c n reps s t → Step c n reps t u → Reach c n reps s u

-- Every barrier is in a state that calls of `barrier_wait` lead to, no thread is in a call, and all
-- have made the same number of calls.
pub record Quiet (n : ℕ) (calls : ℕ → ℕ) (s : State) : Type 0 where
  pub reached : (b : ℕ) → System.Reach n (s.barriers b)
  pub out : (b i : ℕ) → i < n → is_outside ((s.barriers b).threads i).pc ≡ true
  pub even : (b i : ℕ) → i < n → ((s.barriers b).threads i).returned ≡ calls b

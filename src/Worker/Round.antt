-- ===== src/Worker/Round.antt =====
-- The threads of a test over shared lines, interleaved call by call. A barrier is passed by all
-- threads together; in the module Interleaved it is a call of `barrier_wait`.
pub mod Handoff
pub mod Completion
pub mod Opening
pub mod Arrival
use altered_ccbench_fork.Common.{ℕ, ◌<◌, ◌≡◌, update, List, [], ◌∷◌}
use altered_ccbench_fork.Machine.{Config, Local, Lines, M, ◌>>=◌, ◌>>◌, Outcome, ok}
use altered_ccbench_fork.Worker.Program.{Action, Call, call, barrier}
use altered_ccbench_fork.Worker.Exec.{exec}

pub record Team : Type 0 where
  pub programs : ℕ → List Action
  pub locals : ℕ → Local
  pub lines : Lines

-- One call of thread `i`, or a barrier that all `n` threads stand at.
pub data Step (c : Config) (n reps : ℕ) (s : Team) : Team → Type 0 where
  run :
      (i : ℕ) {a : Call} {p : List Action} {l : Local} {w : Lines}
      → i < n
      → s.programs i ≡ call a ∷ p
      → exec c reps a (s.locals i) s.lines ≡ ok tt l w
      → Step c n reps s
          (record { programs = update s.programs i p; locals = update s.locals i l; lines = w })
  meet :
      (b : ℕ) (p : ℕ → List Action)
      → ((i : ℕ) → i < n → s.programs i ≡ barrier b ∷ p i)
      → Step c n reps s (record s { programs = p })

pub data Reach (c : Config) (n reps : ℕ) (s : Team) : Team → Type 0 where
  here : Reach c n reps s s
  next : {t u : Team} → Reach c n reps s t → Step c n reps t u → Reach c n reps s u

abbrev pub Finished : ℕ → Team → Type 0
Finished n s = (i : ℕ) → i < n → s.programs i ≡ []

-- Calls of one thread, one after the other.
unfoldable pub exec_all : Config → ℕ → List Call → M (Unit {0})
exec_all c reps [] l w = ok tt l w
exec_all c reps (a ∷ as') l w = (exec c reps a >>= λ u. exec_all c reps as') l w

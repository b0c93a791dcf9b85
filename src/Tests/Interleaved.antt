-- ===== src/Tests/Interleaved.antt =====
-- The theorems on the tests of two cores at concrete inputs.
use altered_ccbench_fork.Common.{
  ◌≤◌, inr, ◌+◌, ℕ, ◌%◌, ◌≡◌, arith, refl, ◌*◌, ◌-◌, ◌/◌, ◌↔◌, if◌then◌else◌, [], update,
}
use altered_ccbench_fork.Barrier.System
use altered_ccbench_fork.Worker.Event
use altered_ccbench_fork.Worker.Round.{Team}
use altered_ccbench_fork.Worker.Outcome.Calls.{Ready}
use altered_ccbench_fork.Worker.Outcome.Runs as Common
use altered_ccbench_fork.Worker.Outcome.Runs.{Start}
use altered_ccbench_fork.Worker.Interleaved.{State, Quiet}
use altered_ccbench_fork.Worker.Interleaved.Runs.{Runs}
use altered_ccbench_fork.Worker.Interleaved.Transfer.{Runs_iff}
use altered_ccbench_fork.Worker.Interleaved.Results.{
  cas_outcome, cas_ends, tas_outcome, tas_ends, fai_outcome, fai_ends, cas_on_modified_outcome,
  cas_on_modified_ends, tas_on_modified_outcome, tas_on_modified_ends,
}
use altered_ccbench_fork.Worker.Legend.{succ}
use altered_ccbench_fork.Worker.Legend.Share.{legend_share}
use altered_ccbench_fork.Tests.Data.{config, thread, lines, lively, in_range}

abbrev team : Team
team = record { programs = λ i. []; locals = thread; lines = update lines 1 0 }

team-Ready : (i : ℕ) → Ready config 1 0 (thread i)
team-Ready i = record { line = refl; total = refl; lively = lively i }

team-Start : Start config 2 1 0 team
team-Start = record {
  two = omega arith;
  few = omega arith;
  range = in_range;
  zeroth = team-Ready 0;
  oneth = team-Ready 1;
  word = refl;
}

-- With the barriers as `barriers_init` leaves them.
abbrev state : State
state = record { team = team; barriers = λ b. System.init 2 }

abbrev no_calls : ℕ → ℕ
no_calls b = 0

state-Quiet : Quiet 2 no_calls state
state-Quiet = record { reached = λ b. System.start; out = λ b i lt. refl; even = λ b i lt. refl }

cas_ends_example : (f : State) × Runs config 2 Event.cas state 2 f
cas_ends_example = cas_ends 2 (omega arith) team-Start state-Quiet (omega arith)

abbrev cas_run : (f : State) × Runs config 2 Event.cas state 2 f
cas_run = cas_ends 2 (omega arith) team-Start state-Quiet (omega arith)

cas_outcome_example :
    ((cas_run.0.team.locals 0).sum ≡ 2)
    × ((cas_run.0.team.locals 1).sum ≡ 0)
    × (cas_run.0.team.lines 1 ≡ 2 % 2)
cas_outcome_example = cas_outcome (omega arith) team-Start state-Quiet cas_run.1 (omega arith)

tas_ends_example : (f : State) × Runs config 2 Event.tas state 2 f
tas_ends_example = tas_ends 2 (omega arith) team-Start state-Quiet (omega arith)

abbrev tas_run : (f : State) × Runs config 2 Event.tas state 2 f
tas_run = tas_ends 2 (omega arith) team-Start state-Quiet (omega arith)

tas_outcome_example :
    ((tas_run.0.team.locals 0).sum ≡ 2)
    × ((tas_run.0.team.locals 1).sum ≡ 0)
    × (tas_run.0.team.lines 1 ≡ 0)
tas_outcome_example = tas_outcome (omega arith) team-Start state-Quiet tas_run.1 (omega arith)

fai_ends_example : (f : State) × Runs config 2 Event.fai state 2 f
fai_ends_example = fai_ends 2 (omega arith) team-Start state-Quiet (omega arith)

abbrev fai_run : (f : State) × Runs config 2 Event.fai state 2 f
fai_run = fai_ends 2 (omega arith) team-Start state-Quiet (omega arith)

fai_outcome_example :
    ((fai_run.0.team.locals 0).sum ≡ 2 * 2 - 2)
    × ((fai_run.0.team.locals 1).sum ≡ 2 * 2)
    × (fai_run.0.team.lines 1 ≡ 2 * 2)
fai_outcome_example = fai_outcome (omega arith) team-Start state-Quiet fai_run.1 (omega arith)

cas_on_modified_ends_example : (f : State) × Runs config 2 Event.cas_on_modified state 2 f
cas_on_modified_ends_example =
    cas_on_modified_ends 2 (omega arith) (omega arith) team-Start state-Quiet (omega arith)

abbrev cas_on_modified_run : (f : State) × Runs config 2 Event.cas_on_modified state 2 f
cas_on_modified_run =
    cas_on_modified_ends 2 (omega arith) (omega arith) team-Start state-Quiet (omega arith)

cas_on_modified_outcome_example :
    ((cas_on_modified_run.0.team.locals 0).sum ≡ 0)
    × ((cas_on_modified_run.0.team.locals 1).sum
        ≡ (if config.test_ao_success then 2 else (2 + 1) / 2))
    × (cas_on_modified_run.0.team.lines 1 ≡ 2 % 2)
cas_on_modified_outcome_example =
    cas_on_modified_outcome (omega arith) (omega arith) team-Start state-Quiet cas_on_modified_run.1
      (omega arith)

tas_on_modified_ends_example : (f : State) × Runs config 2 Event.tas_on_modified state 2 f
tas_on_modified_ends_example =
    tas_on_modified_ends 2 (omega arith) (omega arith) team-Start state-Quiet (omega arith)

abbrev tas_on_modified_run : (f : State) × Runs config 2 Event.tas_on_modified state 2 f
tas_on_modified_run =
    tas_on_modified_ends 2 (omega arith) (omega arith) team-Start state-Quiet (omega arith)

tas_on_modified_outcome_example :
    ((tas_on_modified_run.0.team.locals 0).sum ≡ 0)
    × ((tas_on_modified_run.0.team.locals 1).sum ≡ (if config.test_ao_success then 2 else 0))
tas_on_modified_outcome_example =
    tas_on_modified_outcome (omega arith) (omega arith) team-Start state-Quiet tas_on_modified_run.1
      (omega arith)

Runs_iff_example :
    ((f : State) × (Runs config 2 Event.cas state 2 f)
      × (f.team.locals ≡ cas_run.0.team.locals)
      × (f.team.lines ≡ cas_run.0.team.lines))
    ↔ ((t : Team) × (Common.Runs config 2 Event.cas team 2 t)
        × (t.locals ≡ cas_run.0.team.locals)
        × (t.lines ≡ cas_run.0.team.lines))
Runs_iff_example =
    Runs_iff (omega arith) (omega arith) state-Quiet cas_run.0.team.locals cas_run.0.team.lines

legend_share_example :
    (succ Event.tas_on_modified config.test_ao_success * 2
      ≤ 100 * (tas_on_modified_run.0.team.locals 1).sum)
    × (100 * (tas_on_modified_run.0.team.locals 1).sum
        ≤ succ Event.tas_on_modified config.test_ao_success * 2 + 50)
legend_share_example =
    legend_share (omega arith) (omega arith) team-Start state-Quiet (omega arith) (inr refl)
      tas_on_modified_run.1

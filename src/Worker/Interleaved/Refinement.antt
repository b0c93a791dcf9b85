-- ===== src/Worker/Interleaved/Refinement.antt =====
-- From runs with calls of `barrier_wait` to runs with barriers that all threads pass together.
use altered_ccbench_fork.Common.{ℕ, ◌^◌, ◌<◌, ◌≡◌, refl, ◌∙◌, List, []}
use altered_ccbench_fork.Machine.{Config}
use altered_ccbench_fork.Barrier.Moves.{begun_outside}
use altered_ccbench_fork.Worker.Event.{Event}
use altered_ccbench_fork.Worker.Program.{Action}
use altered_ccbench_fork.Worker.Round
use altered_ccbench_fork.Worker.Outcome.Runs as Common
use altered_ccbench_fork.Worker.Interleaved.{State, run, access, Reach, here, next, Quiet}
use altered_ccbench_fork.Worker.Interleaved.Place.{View, Place, away, before, behind, Rests}
use altered_ccbench_fork.Worker.Interleaved.Meeting.{view, Simulates, Follows}
use altered_ccbench_fork.Worker.Interleaved.Simulation.{run-Follows, access-Follows}
use altered_ccbench_fork.Worker.Interleaved.Runs.{begin, Runs, none, more}

Place-finished :
    (passed : ℕ → ℕ) (v : View) {p q : List Action}
    → Place passed v p q
    → p ≡ []
    → (q ≡ []) × ((x : ℕ) → Rests passed v x)
Place-finished passed v (away e h) e' = (e ∙ e', h)
Place-finished passed v (before b e eq o m h) e' = absurd (cc)
Place-finished passed v (behind b e eq o m h) e' = absurd (cc)

module _ (c : Config) (n : ℕ) (small : n < 2 ^ 64) (pos : 0 < n) where
  module _ (reps : ℕ) where
    Quiet-Simulates : (calls : ℕ → ℕ) (f : State) → Quiet n calls f → Simulates n calls f f.team
    Quiet-Simulates calls f q = record {
      reached = q.reached;
      place = λ i lt. away refl (λ x. (q.out x i lt, q.even x i lt));
      same_locals = refl;
      same_lines = refl;
      someone = λ b. (0, pos, begun_outside (view f 0 b) (q.out b 0 pos) ∙ q.even b 0 pos);
    }

    simulated :
        (calls : ℕ → ℕ) (f : State)
        → Quiet n calls f
        → {g : State} → Reach c n reps f g
        → (passed : ℕ → ℕ) × (t : Round.Team) × (Simulates n passed g t)
          × Round.Reach c n reps f.team t
    unfolding Follows
    simulated calls f q here = (calls, f.team, Quiet-Simulates calls f q, Round.here)
    simulated calls f q (next r (run i lt e done)) =
        let (passed, t, sim, rt) = simulated calls f q r in
        let (passed', u, sim', go) = run-Follows c n reps small pos passed _ t sim i lt e done in
        (passed', u, sim', go f.team rt)
    simulated calls f q (next r (access i b lt e)) =
        let (passed, t, sim, rt) = simulated calls f q r in
        let (passed', u, sim', go) = access-Follows c n reps small pos passed _ t sim i b _ lt e in
        (passed', u, sim', go f.team rt)

    Simulates-Finished :
        (passed : ℕ → ℕ) (g : State) (t : Round.Team)
        → Simulates n passed g t
        → Round.Finished n g.team
        → Round.Finished n t × Quiet n passed g
    Simulates-Finished passed g t sim f =
        let at_end : (i : ℕ) → i < n → (t.programs i ≡ []) × ((x : ℕ) → Rests passed (view g i) x) =
          λ i lt. Place-finished passed (view g i) (sim.place i lt) (f i lt) in
        (
          λ i lt. (at_end i lt).0,
          record {
            reached = sim.reached;
            out = λ b i lt. ((at_end i lt).1 b).0;
            even = λ b i lt. ((at_end i lt).1 b).1;
          },
        )

  begin_same :
      (e : Event) (k : ℕ) (t u : Round.Team)
      → t.locals ≡ u.locals
      → t.lines ≡ u.lines
      → Common.begin c e k t ≡ Common.begin c e k u
  begin_same e k t u el ew = cc

  -- After complete repetitions with calls of `barrier_wait` no thread is in a call, and the
  -- variables and the lines are those after as many repetitions with common barriers.
  pub Runs-refined :
      (e : Event) (calls : ℕ → ℕ) (s : State)
      → Quiet n calls s
      → {k : ℕ} {f : State} → Runs c n e s k f
      → (t : Round.Team) × (Common.Runs c n e s.team k t)
        × (t.locals ≡ f.team.locals)
        × (t.lines ≡ f.team.lines)
        × ((passed : ℕ → ℕ) × Quiet n passed f)
  Runs-refined e calls s q none = (s.team, Common.none, refl, refl, (calls, q))
  Runs-refined e calls s q (more {k} {t = f} {u = g} runs r fin) =
      let (t, common, el, ew, (passed, quiet)) = Runs-refined e calls s q runs in
      let start : Quiet n passed (begin c e k f) = record {
        reached = quiet.reached;
        out = quiet.out;
        even = quiet.even;
      } in
      let (passed', u, sim, ru) = simulated k passed (begin c e k f) start r in
      let (done, quiet') = Simulates-Finished k passed' g u sim fin in
      (
        u,
        Common.more common (rw (begin_same e k t f.team el ew) ru) done,
        sim.same_locals,
        sim.same_lines,
        (passed', quiet'),
      )

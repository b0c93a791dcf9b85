-- ===== src/Worker/Interleaved/Simulation.antt =====
-- A step of the test with calls of `barrier_wait`, in the test with barriers that all threads pass
-- together.
use mathlib.Core.Path.{fun_ext}
use altered_ccbench_fork.Common.{
  ℕ, ◌^◌, ◌≤◌, ◌<◌, ◌≡◌, ◌≢◌, refl, sym, ap, ◌∙◌, arith, update, update_self, update_ne, subst,
  List, ◌∷◌, if◌then◌else◌, ◌==◌, Bool-cases, inl, inr, ℕ_discrete,
}
use altered_ccbench_fork.Machine.{Config, Local, Lines, ok}
use altered_ccbench_fork.Barrier.Wait.{Thread, step}
use altered_ccbench_fork.Barrier.System
use altered_ccbench_fork.Barrier.Safety.{begun, no_early_return}
use altered_ccbench_fork.Barrier.Invariant.{Reach-Inv}
use altered_ccbench_fork.Barrier.Moves.{is_outside, Move, step-Move, Move-returned}
use altered_ccbench_fork.Worker.Program.{Action, Call, call, barrier}
use altered_ccbench_fork.Worker.Exec.{exec}
use altered_ccbench_fork.Worker.Round
use altered_ccbench_fork.Worker.Interleaved.{State, left_after}
use altered_ccbench_fork.Worker.Interleaved.Place.{
  Place, away, Place-call, Place-update, Place-access,
}
use altered_ccbench_fork.Worker.Interleaved.Meeting.{view, Simulates, Follows, settle}

module _ (c : Config) (n reps : ℕ) (small : n < 2 ^ 64) (pos : 0 < n) (passed : ℕ → ℕ) (f : State)
    (t : Round.Team) (sim : Simulates n passed f t) where
  open sim use {reached, place, same_locals, same_lines, someone}

  pub run-Follows :
      (i : ℕ) {a : Call} {p : List Action} {l : Local} {w : Lines}
      → i < n
      → f.team.programs i ≡ call a ∷ p
      → exec c reps a (f.team.locals i) f.team.lines ≡ ok tt l w
      → Follows c n reps t (record f {
        team = record {
          programs = update f.team.programs i p;
          locals = update f.team.locals i l;
          lines = w;
        };
      })
  unfolding Follows
  run-Follows i {a} {p} {l} {w} lt e done =
      let (eq, rests) = Place-call passed (view f i) (place i lt) e in
      (
        passed,
        record { programs = update t.programs i p; locals = update t.locals i l; lines = w },
        record {
          reached = reached;
          place = λ j lj.
              Place-update passed (view f j) f.team.programs t.programs i p p j
                (λ h. away refl (rw h rests)) (λ ne. place j lj);
          same_locals = ap (λ ls. update ls i l) same_locals;
          same_lines = refl;
          someone = someone;
        },
        λ s r. Round.next r (Round.run i lt (eq ∙ e) (rw (same_locals, same_lines) done)),
      )

  module _ (i b : ℕ) (p : List Action) (lt : i < n) (e : f.team.programs i ≡ barrier b ∷ p) where
    abbrev moved : System.System
    moved = System.advance i (f.barriers b)

    abbrev after : State
    after = record {
      team = record f.team { programs = update f.team.programs i (left_after moved i b p) };
      barriers = update f.barriers b moved;
    }

    reached_after : (x : ℕ) → System.Reach n (after.barriers x)
    reached_after x = elim (Bool-cases (b == x)) [
      | inl h ↦ rw h (System.later (reached b) i lt)
      | inr h ↦ rw h (reached x)
    ]

    other_barrier : (j x : ℕ) → x ≢ b → view after j x ≡ view f j x
    other_barrier j x ne = ground arith

    other_thread : (j x : ℕ) → j ≢ i → view after j x ≡ view f j x
    other_thread j x ne = ground arith

    this_barrier : (j : ℕ) → view after j b ≡ moved.threads j
    this_barrier j = ground arith

    abbrev stepped : Thread
    stepped = (step i (f.barriers b).bar (view f i b).pc (view f i b).returned).1

    this_thread : view after i b ≡ stepped
    this_thread = ground (arith, update_self (f.barriers b).threads i stepped)

    move : Move (view f i b) (view after i b)
    move =
        let (m, inv) = Reach-Inv pos small (reached b) in
        rw this_thread
          (step-Move i (f.barriers b).bar (view f i b).returned (inv.colors i) (view f i b).pc)

    -- Some thread has not begun the call that is not passed, so thread `i` does not return from it.
    early : (view after i b).returned ≤ passed b
    early =
        let (j, lj, back) = someone b in
        elim (ℕ_discrete j i) [
          | yes h ↦ ground (arith, Move-returned move)
          | no ne ↦
              subst (λ k. (view after i b).returned ≤ k) (ap begun (other_thread j b ne) ∙ back)
                (no_early_return small (reached_after b) i j lt lj)
        ]

    placed : (j : ℕ) → j < n → Place passed (view after j) (after.team.programs j) (t.programs j)
    placed j lj = elim (ℕ_discrete j i) [
      | yes h ↦
          rw
            (
              h,
              update_self f.team.programs i (left_after moved i b p),
              sym (ap (λ u. if is_outside u.pc then p else barrier b ∷ p) (this_barrier i)),
            )
            (Place-access passed (view f i) (view after i) b p (t.programs i)
              (λ x ne. other_barrier i x ne) e move early (place i lt))
      | no ne ↦
          rw
            (
              update_ne f.team.programs i (left_after moved i b p) j ne,
              fun_ext (λ x. other_thread j x ne),
            )
            (place j lj)
    ]

    pub access-Follows : Follows c n reps t after
    access-Follows =
        settle c n reps passed after t b reached_after placed same_locals same_lines
          (λ x ne. let (j, lj, back) = someone x in (j, lj, ap begun (other_barrier j x ne) ∙ back))
          pos

-- ===== src/Worker/Interleaved/Sweep.antt =====
-- All threads make one shared access each in the same call of `barrier_wait`, in turn.
use altered_ccbench_fork.Common.{
  ℕ, zero, suc, ◌+◌, ◌≤◌, ◌<◌, ◌≡◌, ◌≢◌, ap, ◌∙◌, arith, update, update_self, update_ne, List, ◌∷◌,
  if◌then◌else◌, ltb, ℕ_discrete, subst, sym,
}
use altered_ccbench_fork.Machine.{Config}
use altered_ccbench_fork.Barrier.Wait.{Barrier, Thread, step}
use altered_ccbench_fork.Barrier.System
use altered_ccbench_fork.Barrier.Moves.{is_outside}
use altered_ccbench_fork.Worker.Program.{Action, barrier}
use altered_ccbench_fork.Worker.Interleaved.{State, Reach, next, access, left_after}

-- The program of a thread at `t`, with `p` behind the barrier.
abbrev pub program_at : ℕ → List Action → Thread → List Action
program_at b p t = if is_outside t.pc then p else barrier b ∷ p

module _ (c : Config) (n reps b : ℕ) (p : ℕ → List Action) (f : State) where
  -- A state that is reached from `f` by calls of `barrier_wait(b)` alone, with all threads as
  -- `place` has them in this call and with the programs `left`.
  pub record Within (place : ℕ → Thread) (left : ℕ → List Action) (Holds : Barrier → Type 0)
      (g : State) : Type 0 where
    pub path : Reach c n reps f g
    pub reached : System.Reach n (g.barriers b)
    pub threads : (j : ℕ) → j < n → (g.barriers b).threads j ≡ place j
    pub programs : (j : ℕ) → j < n → g.team.programs j ≡ left j
    pub holds : Holds (g.barriers b).bar
    pub others : (x : ℕ) → x ≢ b → g.barriers x ≡ f.barriers x
    pub locals : g.team.locals ≡ f.team.locals
    pub lines : g.team.lines ≡ f.team.lines

  abbrev pub Everyone : Thread → (ℕ → List Action) → (Barrier → Type 0) → Type 0
  Everyone t left Holds = (g : State) × Within (λ j. t) left Holds g

  -- At the barrier.
  abbrev pub held : ℕ → List Action
  held j = barrier b ∷ p j

  relabel :
      (place place' : ℕ → Thread) (left left' : ℕ → List Action) (Holds : Barrier → Type 0)
      (g : State)
      → ((j : ℕ) → j < n → place j ≡ place' j)
      → ((j : ℕ) → j < n → left j ≡ left' j)
      → Within place left Holds g
      → Within place' left' Holds g
  relabel place place' left left' Holds g same same_left w = record {
    path = w.path;
    reached = w.reached;
    threads = λ j lt. w.threads j lt ∙ same j lt;
    programs = λ j lt. w.programs j lt ∙ same_left j lt;
    holds = w.holds;
    others = w.others;
    locals = w.locals;
    lines = w.lines;
  }

  pub weaken :
      (t : Thread) (left : ℕ → List Action) (P Q : Barrier → Type 0)
      → ((bar : Barrier) → P bar → Q bar)
      → Everyone t left P
      → Everyone t left Q
  weaken t left P Q imp (g, w) = (
    g,
    record {
      path = w.path;
      reached = w.reached;
      threads = w.threads;
      programs = w.programs;
      holds = imp (g.barriers b).bar w.holds;
      others = w.others;
      locals = w.locals;
      lines = w.lines;
    },
  )

  module _ (old new : Thread) (Holds : ℕ → Barrier → Type 0)
      (one : (i m : ℕ) (bar : Barrier)
        → m < n
        → Holds m bar
        → ((step i bar old.pc old.returned).1 ≡ new)
          × Holds (m + 1) (step i bar old.pc old.returned).0) where
    -- The first `m` threads have made the access.
    abbrev partly : ℕ → ℕ → Thread
    partly m j = if ltb j m then new else old

    abbrev passed_on : ℕ → List Action
    passed_on j = program_at b (p j) new

    abbrev partly_left : ℕ → ℕ → List Action
    partly_left m j = if ltb j m then passed_on j else held j

    left_self : (m : ℕ) → partly_left m m ≡ held m
    left_self m = ground arith

    left_suc : (m : ℕ) → partly_left (m + 1) m ≡ passed_on m
    left_suc m = ground arith

    left_ne : (m j : ℕ) → j ≢ m → partly_left m j ≡ partly_left (m + 1) j
    left_ne m j ne = ground arith

    partly_self : (m : ℕ) → partly m m ≡ old
    partly_self m = ground arith

    partly_suc : (m : ℕ) → partly (m + 1) m ≡ new
    partly_suc m = ground arith

    partly_ne : (m j : ℕ) → j ≢ m → partly m j ≡ partly (m + 1) j
    partly_ne m j ne = ground arith

    module _ (m : ℕ) (lt : m < n) (g : State)
        (w : Within (partly m) (partly_left m) (Holds m) g) where
      abbrev here : System.System
      here = g.barriers b

      abbrev moved : System.System
      moved = System.advance m here

      standing : here.threads m ≡ old
      standing = w.threads m lt ∙ partly_self m

      moves :
          ((step m here.bar (here.threads m).pc (here.threads m).returned).1 ≡ new)
          × Holds (m + 1) (step m here.bar (here.threads m).pc (here.threads m).returned).0
      moves = rw standing (one m m here.bar lt w.holds)

      abbrev after : State
      after = record {
        team = record g.team { programs = update g.team.programs m (left_after moved m b (p m)) };
        barriers = update g.barriers b moved;
      }

      at_barrier : after.barriers b ≡ moved
      at_barrier = update_self g.barriers b moved

      mover : moved.threads m ≡ new
      mover = update_self here.threads m _ ∙ moves.0

      statement : g.team.programs m ≡ barrier b ∷ p m
      statement = w.programs m lt ∙ left_self m

      next_one : Within (partly (m + 1)) (partly_left (m + 1)) (Holds (m + 1)) after
      next_one = record {
        path = next w.path (access m b lt statement);
        reached = rw at_barrier (System.later w.reached m lt);
        threads = λ j lj. rw at_barrier (elim (ℕ_discrete j m) [
          | yes e ↦ rw e (mover ∙ sym (partly_suc m))
          | no ne ↦ update_ne here.threads m _ j ne ∙ w.threads j lj ∙ partly_ne m j ne
        ]);
        programs = λ j lj. elim (ℕ_discrete j m) [
          | yes e ↦
              rw e
                (update_self g.team.programs m _ ∙ ap (program_at b (p m)) mover ∙ sym (left_suc m))
          | no ne ↦ update_ne g.team.programs m _ j ne ∙ w.programs j lj ∙ left_ne m j ne
        ];
        holds = rw at_barrier (moves.1);
        others = λ x ne. update_ne g.barriers b moved x ne ∙ w.others x ne;
        locals = w.locals;
        lines = w.lines;
      }

    sweep_to :
        (m : ℕ)
        → m ≤ n
        → Everyone old held (Holds 0)
        → (g : State) × Within (partly m) (partly_left m) (Holds m) g
    sweep_to zero le (g, w) = (
      g,
      relabel (λ j. old) (partly 0) held (partly_left 0) (Holds 0) g (λ j lt. ground arith)
          (λ j lt. ground arith) w,
    )
    sweep_to (suc m) le s =
        let (g, w) = sweep_to m (omega arith) s in
        let same : m + 1 ≡ suc m = omega arith in
        (
          after m (omega arith) g w,
          subst (λ k. Within (partly k) (partly_left k) (Holds k) (after m (omega arith) g w)) same
              (next_one m (omega arith) g w),
        )

    pub sweep : Everyone old held (Holds 0) → Everyone new passed_on (Holds n)
    sweep s =
        let (g, w) = sweep_to n (omega arith) s in
        (
          g,
          relabel (partly n) (λ j. new) (partly_left n) passed_on (Holds n) g (λ j lt. ground arith)
              (λ j lt. ground arith) w,
        )

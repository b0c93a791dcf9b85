-- ===== src/Worker/Interleaved/Realisation.antt =====
-- From runs with barriers that all threads pass together to runs with calls of `barrier_wait`, in a
-- schedule that lets all threads through a barrier before any goes on.
use altered_ccbench_fork.Common.{
  ℕ, ◌+◌, ◌*◌, ◌^◌, ◌<◌, ◌≡◌, refl, ap, ◌∙◌, arith, update, update_self, update_ne, List, ◌∷◌, true,
  total, total-eq-zero, ℕ_discrete,
}
use altered_ccbench_fork.Machine.{Config}
use altered_ccbench_fork.Barrier.Wait.{Thread, outside, at}
use altered_ccbench_fork.Barrier.Invariant.{Reach-Inv, crossed}
use altered_ccbench_fork.Barrier.Moves.{is_outside}
use altered_ccbench_fork.Worker.Event.{Event}
use altered_ccbench_fork.Worker.Program.{Action, barrier}
use altered_ccbench_fork.Worker.Round
use altered_ccbench_fork.Worker.Outcome.Runs as Common
use altered_ccbench_fork.Worker.Interleaved.{State, Reach, here, next, run, Quiet}
use altered_ccbench_fork.Worker.Interleaved.Runs.{begin, Runs, none, more}
use altered_ccbench_fork.Worker.Interleaved.Sweep.{Everyone}
use altered_ccbench_fork.Worker.Interleaved.Passing.{Counts, passes, Is, Any}

outside_at : (t : Thread) (k : ℕ) → is_outside t.pc ≡ true → t.returned ≡ k → t ≡ at outside k
outside_at t k o e = ground arith

pub Reach-trans :
    {c : Config} {n reps : ℕ} {f g h : State}
    → Reach c n reps f g
    → Reach c n reps g h
    → Reach c n reps f h
Reach-trans r here = r
Reach-trans r (next q s) = next (Reach-trans r q) s

-- The same programs, variables and lines.
record Agrees (n : ℕ) (t : Round.Team) (f : State) : Type 0 where
  programs : (i : ℕ) → i < n → f.team.programs i ≡ t.programs i
  locals : f.team.locals ≡ t.locals
  lines : f.team.lines ≡ t.lines

module _ (c : Config) (n reps : ℕ) (small : n < 2 ^ 64) (pos : 0 < n) where
  Realised : State → Round.Team → Type 0
  Realised f t =
      (g : State) × (calls : ℕ → ℕ) × (Reach c n reps f g) × (Quiet n calls g) × Agrees n t g

  module _ (calls : ℕ → ℕ) (f : State) (q : Quiet n calls f) (b : ℕ) where
    -- No thread is in a call, so the counter that the next call waits for first is 0.
    ready : Counts n (Is 0) Any Any (f.barriers b).bar
    ready =
        let (m, inv) = Reach-Inv pos small (q.reached b) in
        let at_m : 3 * calls b ≡ m =
          ground (arith, q.out b 0 pos, q.even b 0 pos, inv.near 0 pos) in
        let none_in : total (crossed m) n (f.barriers b).threads ≡ 0 =
          total-eq-zero (crossed m) n (f.barriers b).threads
            (λ j lj. ground (arith, q.out b j lj, q.even b j lj)) in
        record {
          parts = inv.parts;
          colors = inv.colors;
          first = ground (arith, inv.counted);
          second = tt;
          third = tt;
        }

    module _ (p : ℕ → List Action)
        (stand : (i : ℕ) → i < n → f.team.programs i ≡ barrier b ∷ p i) where
      passed : Everyone c n reps b p f (at outside (calls b + 1)) p (Counts n (Is 0) (Is n) (Is n))
      passed = passes c n reps b (calls b) small p f pos (
        f,
        record {
          path = here;
          reached = q.reached b;
          threads = λ j lj. outside_at _ (calls b) (q.out b j lj) (q.even b j lj);
          programs = stand;
          holds = ready;
          others = λ x ne. refl;
          locals = refl;
          lines = refl;
        },
      )

      meet-Realised : (t : Round.Team) → Agrees n t f → Realised f (record t { programs = p })
      unfolding Realised
      meet-Realised t a =
          let (g, w) = passed in
          (
            g,
            update calls b (calls b + 1),
            w.path,
            record {
              reached = λ x. elim (ℕ_discrete x b) [
                | yes e ↦ rw e (w.reached)
                | no ne ↦ rw (w.others x ne) (q.reached x)
              ];
              out = λ x i lt. elim (ℕ_discrete x b) [
                | yes e ↦ rw (e, w.threads i lt) refl
                | no ne ↦ rw (w.others x ne) (q.out x i lt)
              ];
              even = λ x i lt. elim (ℕ_discrete x b) [
                | yes e ↦ rw (e, w.threads i lt, update_self calls b (calls b + 1)) refl
                | no ne ↦ rw (w.others x ne, update_ne calls b (calls b + 1) x ne) (q.even x i lt)
              ];
            },
            record {
              programs = w.programs;
              locals = w.locals ∙ a.locals;
              lines = w.lines ∙ a.lines;
            },
          )

  realised :
      (calls : ℕ → ℕ) (f : State)
      → Quiet n calls f
      → (s : Round.Team) → Agrees n s f
      → {t : Round.Team} → Round.Reach c n reps s t
      → Realised f t
  unfolding Realised
  realised calls f q s a Round.here = (f, calls, here, q, a)
  realised calls f q s a (Round.next {t} r (Round.run i {a = one} {p} {l} {w} lt e done)) =
      let (g, calls', path, quiet, agrees) = realised calls f q s a r in
      (
        record g {
          team = record {
            programs = update g.team.programs i p;
            locals = update g.team.locals i l;
            lines = w;
          };
        },
        calls',
        next path (run i lt (agrees.programs i lt ∙ e) (rw (agrees.locals, agrees.lines) done)),
        record { reached = quiet.reached; out = quiet.out; even = quiet.even },
        record {
          programs = λ j lj. ground (arith, agrees.programs j lj);
          locals = ap (λ ls. update ls i l) agrees.locals;
          lines = refl;
        },
      )
  realised calls f q s a (Round.next {t} r (Round.meet b p stand)) =
      let (g, calls', path, quiet, agrees) = realised calls f q s a r in
      let (h, calls'', path', quiet', agrees') =
        meet-Realised calls' g quiet b p (λ i lt. agrees.programs i lt ∙ stand i lt) t agrees in
      (h, calls'', Reach-trans path path', quiet', agrees')

module _ (c : Config) (n : ℕ) (small : n < 2 ^ 64) (pos : 0 < n) where
  -- The converse of the refinement.
  pub Runs-realised :
      (e : Event) (calls : ℕ → ℕ) (s : State)
      → Quiet n calls s
      → {k : ℕ} {t : Round.Team} → Common.Runs c n e s.team k t
      → (f : State) × (Runs c n e s k f)
        × (f.team.locals ≡ t.locals)
        × (f.team.lines ≡ t.lines)
        × ((passed : ℕ → ℕ) × Quiet n passed f)
  unfolding Realised
  Runs-realised e calls s q Common.none = (s, none, refl, refl, (calls, q))
  Runs-realised e calls s q (Common.more {k} {t} {u} runs r fin) =
      let (f, fine, el, ew, (passed, quiet)) = Runs-realised e calls s q runs in
      let (g, passed', path, quiet', agrees) =
        realised c n k small pos passed (begin c e k f)
          (record { reached = quiet.reached; out = quiet.out; even = quiet.even })
          (Common.begin c e k t) (record { programs = λ i lt. refl; locals = el; lines = ew }) r in
      (
        g,
        more fine path (λ i lt. agrees.programs i lt ∙ fin i lt),
        agrees.locals,
        agrees.lines,
        (passed', quiet'),
      )

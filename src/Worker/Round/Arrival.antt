-- ===== src/Worker/Round/Arrival.antt =====
-- All threads run to the barrier that begins a round.
use altered_ccbench_fork.Common.{
  ℕ, zero, suc, ◌<◌, ◌≤◌, ◌≡◌, ◌≢◌, ◌∙◌, refl, arith, update, update_self, update_ne, List, [], ◌∷◌,
  ◌++◌, All, ℕ_discrete,
}
use altered_ccbench_fork.Machine.{Config}
use altered_ccbench_fork.Worker.Program.{Action, Call, barrier}
use altered_ccbench_fork.Worker.Round.{Team, run, meet, Reach, here, next}
use altered_ccbench_fork.Worker.Round.Handoff.{calls}
use altered_ccbench_fork.Worker.Round.Opening.{Reach-trans, Kept, Kept-refl, Kept-trans, IsHarmless}

module _ (c : Config) (n reps b : ℕ) (p : ℕ → List Action) (s : Team) (before : List Call)
    (harmless : All (IsHarmless c reps) before)
    (stand : (i : ℕ) → i < n → s.programs i ≡ calls before ++ barrier b ∷ p i) where
  -- One thread runs to the barrier.
  record Come (i : ℕ) (t u : Team) : Type 0 where
    path : Reach c n reps t u
    there : u.programs i ≡ barrier b ∷ p i
    kept : Kept (t.locals i) (u.locals i)
    lines : u.lines ≡ t.lines
    other_programs : (j : ℕ) → j ≢ i → u.programs j ≡ t.programs j
    other_locals : (j : ℕ) → j ≢ i → u.locals j ≡ t.locals j

  come :
      (left : List Call) (i : ℕ) (t : Team)
      → i < n
      → All (IsHarmless c reps) left
      → t.programs i ≡ calls left ++ barrier b ∷ p i
      → (u : Team) × Come i t u
  come [] i t lt h e = (
    t,
    record {
      path = here;
      there = e;
      kept = Kept-refl (t.locals i);
      lines = refl;
      other_programs = λ j ne. refl;
      other_locals = λ j ne. refl;
    },
  )
  come (a ∷ left) i t lt (h0, h) e =
      let (l, done, k) = h0 (t.locals i) t.lines in
      let q = calls left ++ barrier b ∷ p i in
      let t' : Team = record {
        programs = update t.programs i q;
        locals = update t.locals i l;
        lines = t.lines;
      } in
      let (u, w) = come left i t' lt h (update_self t.programs i q) in
      (
        u,
        record {
          path = Reach-trans (next here (run i lt e done)) w.path;
          there = w.there;
          kept = Kept-trans k (rw (update_self t.locals i l) at w.kept);
          lines = w.lines;
          other_programs = λ j ne. w.other_programs j ne ∙ update_ne t.programs i q j ne;
          other_locals = λ j ne. w.other_locals j ne ∙ update_ne t.locals i l j ne;
        },
      )

  -- The first `m` threads have run to the barrier.
  record Arrived (m : ℕ) (t : Team) : Type 0 where
    path : Reach c n reps s t
    there : (i : ℕ) → i < m → t.programs i ≡ barrier b ∷ p i
    away : (i : ℕ) → m ≤ i → i < n → t.programs i ≡ calls before ++ barrier b ∷ p i
    kept : (i : ℕ) → Kept (s.locals i) (t.locals i)
    lines : t.lines ≡ s.lines

  arrive : (m : ℕ) → m ≤ n → (t : Team) × Arrived m t
  arrive zero le = (
    s,
    record {
      path = here;
      there = λ i lt. absurd (omega arith);
      away = λ i low lt. stand i lt;
      kept = λ i. Kept-refl (s.locals i);
      lines = refl;
    },
  )
  arrive (suc m) le =
      let (t, a) = arrive m (omega arith) in
      let (u, w) = come before m t (omega arith) harmless (a.away m (omega arith) (omega arith)) in
      (
        u,
        record {
          path = Reach-trans a.path w.path;
          there = λ i lt. elim (ℕ_discrete i m) [
            | yes h ↦ rw h (w.there)
            | no ne ↦ w.other_programs i ne ∙ a.there i (omega arith)
          ];
          away = λ i low lt.
              w.other_programs i (λ h. absurd (omega (arith, h))) ∙ a.away i (omega arith) lt;
          kept = λ i. elim (ℕ_discrete i m) [
            | yes h ↦ rw h (Kept-trans (a.kept m) w.kept)
            | no ne ↦ rw (w.other_locals i ne) (a.kept i)
          ];
          lines = w.lines ∙ a.lines;
        },
      )

  -- All threads can run to the barrier and pass it.
  pub open_all :
      (o : Team) × Reach c n reps s o
      × (o.programs ≡ p)
      × ((i : ℕ) → Kept (s.locals i) (o.locals i))
      × (o.lines ≡ s.lines)
  open_all =
      let (t, a) = arrive n (omega arith) in
      (record t { programs = p }, next a.path (meet b p a.there), refl, a.kept, a.lines)

-- ===== src/Worker/Round/Completion.antt =====
-- The interleaving by phases of such a test.
use altered_ccbench_fork.Common.{
  ℕ, zero, suc, ◌<◌, ◌≤◌, ◌≡◌, refl, update, List, [], ◌∷◌, ◌++◌, arith, ap, if◌then◌else◌, ◌==◌,
  ◌≢◌, ℕ_discrete,
}
use altered_ccbench_fork.Machine.{Config, Local, Lines, Outcome, ok, fault, unfinished, proceed, M}
use altered_ccbench_fork.Worker.Program.{Action, Call, barrier}
use altered_ccbench_fork.Worker.Exec.{exec}
use altered_ccbench_fork.Worker.Round.{Team, run, meet, Reach, here, next, Finished, exec_all}
use altered_ccbench_fork.Worker.Round.Handoff.{Handoff, calls, waits}

proceed_inv :
    {A B : Type 0} (o o' : Outcome A) (k : A → M B) {b : B} {l2 : Local} {w2 : Lines}
    → o ≡ o'
    → proceed o k ≡ ok b l2 w2
    → (a : A) × (l : Local) × (w : Lines) × (o ≡ ok a l w) × (k a l w ≡ ok b l2 w2)
proceed_inv o (ok a l w) k e h = (a, l, w, e, rw e at h)
proceed_inv o fault k e h = absurd (cc (ap (λ x. proceed x k) e))
proceed_inv o unfinished k e h = absurd (cc (ap (λ x. proceed x k) e))

exec_all-inv :
    (c : Config) (reps : ℕ) (a : Call) (rest : List Call) (l : Local) (w : Lines) {l2 : Local}
    {w2 : Lines}
    → exec_all c reps (a ∷ rest) l w ≡ ok tt l2 w2
    → (l' : Local) × (w' : Lines) × (exec c reps a l w ≡ ok tt l' w')
      × (exec_all c reps rest l' w' ≡ ok tt l2 w2)
unfolding exec_all
exec_all-inv c reps a rest l w h =
    let (u, l', w', e, e') = proceed_inv (exec c reps a l w) _ (λ u. exec_all c reps rest) refl h in
    (l', w', e, e')

module _ (c : Config) (n reps : ℕ) (second : List Call) (s : Team) where
  Completes : Type 0
  Completes = (u : Team) × Reach c n reps s u × Finished n u

  complete_waits :
      (bs : List ℕ) (t : Team)
      → Reach c n reps s t
      → ((i : ℕ) → i < n → t.programs i ≡ waits bs)
      → Completes
  unfolding Completes
  complete_waits [] t r h = (t, r, h)
  complete_waits (b ∷ bs) t r h =
      complete_waits bs (record t { programs = λ i. waits bs }) (next r (meet b (λ i. waits bs) h))
        (λ i lt. refl)

  complete_second :
      (left : List Call) (bs : List ℕ) (t : Team)
      → Reach c n reps s t
      → 2 ≤ n
      → t.programs 1 ≡ calls left ++ waits bs
      → ((i : ℕ) → i < n → i ≢ 1 → t.programs i ≡ waits bs)
      → {l2 : Local} {w2 : Lines} → exec_all c reps left (t.locals 1) t.lines ≡ ok tt l2 w2
      → Completes
  complete_second [] bs t r two one rest h =
      complete_waits bs t r
        λ i lt. elim (ℕ_discrete i 1) [ yes e ↦ rw e one | no ne ↦ rest i lt ne ]
  complete_second (a ∷ left) bs t r two one rest h =
      let (l', w', e, e') = exec_all-inv c reps a left (t.locals 1) t.lines h in
      complete_second left bs
        (record {
          programs = update t.programs 1 (calls left ++ waits bs);
          locals = update t.locals 1 l';
          lines = w';
        })
        (next r (run 1 (omega arith) one e)) two refl (λ i lt ne. ground (arith, rest i lt ne)) e'

  released : ℕ → List Call → List ℕ → List Action
  released i left bs = if i == 1 then calls left ++ waits bs else waits bs

  meets :
      (b : ℕ) (bs : List ℕ) (t : Team)
      → Handoff n [] second b bs t
      → (i : ℕ) → i < n
      → t.programs i ≡ barrier b ∷ released i second bs
  unfolding released
  meets b bs t shape zero lt = shape.zeroth
  meets b bs t shape (suc zero) lt = shape.oneth
  meets b bs t shape (suc (suc i)) lt = ground (arith, shape.others (suc (suc i)) (omega arith) lt)

  same_lines : (l l1 : Local) (w w1 : Lines) → exec_all c reps [] l w ≡ ok tt l1 w1 → w1 ≡ w
  unfolding exec_all
  same_lines l l1 w w1 h = cc

  complete_first :
      (left : List Call) (b : ℕ) (bs : List ℕ) (t : Team)
      → Reach c n reps s t
      → 2 ≤ n
      → Handoff n left second b bs t
      → {l1 : Local} {w1 : Lines} → exec_all c reps left (t.locals 0) t.lines ≡ ok tt l1 w1
      → {l2 : Local} {w2 : Lines} → exec_all c reps second (t.locals 1) w1 ≡ ok tt l2 w2
      → Completes
  complete_first [] b bs t r two shape {l1} {w1} h k =
      complete_second second bs (record t { programs = λ i. released i second bs })
        (next r (meet b (λ i. released i second bs) (meets b bs t shape))) two
        (unfold released in refl) (λ i lt ne. unfold released in ground arith)
        (rw (same_lines (t.locals 0) l1 t.lines w1 h) at k)
  complete_first (a ∷ left) b bs t r two shape h k =
      let (l', w', e, e') = exec_all-inv c reps a left (t.locals 0) t.lines h in
      complete_first left b bs
        (record {
          programs = update t.programs 0 (calls left ++ barrier b ∷ waits bs);
          locals = update t.locals 0 l';
          lines = w';
        })
        (next r (run 0 (omega arith) (shape.zeroth) e)) two
        (record {
          zeroth = refl;
          oneth = shape.oneth;
          others = λ i low lt. ground (arith, shape.others i low lt);
        })
        e' k

  -- When of at least two threads the first works only before the barrier and the second only after
  -- it, and their calls run to their ends one after the other, the threads have an interleaving in
  -- which all of them finish.
  pub Handoff-completes :
      (first : List Call) (b : ℕ) (bs : List ℕ)
      → 2 ≤ n
      → Handoff n first second b bs s
      → {l1 : Local} {w1 : Lines} → exec_all c reps first (s.locals 0) s.lines ≡ ok tt l1 w1
      → {l2 : Local} {w2 : Lines} → exec_all c reps second (s.locals 1) w1 ≡ ok tt l2 w2
      → (u : Team) × Reach c n reps s u × Finished n u
  unfolding Completes
  Handoff-completes first b bs two shape h k = complete_first first b bs s here two shape h k

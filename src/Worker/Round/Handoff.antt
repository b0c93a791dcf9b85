-- ===== src/Worker/Round/Handoff.antt =====
-- Tests in which thread 0 works up to a barrier and thread 1 after it.
use altered_ccbench_fork.Common.{
  ℕ, zero, suc, ◌<◌, ◌≤◌, ◌≡◌, refl, update, List, [], ◌∷◌, ◌++◌, map, arith, ◌⊎◌, inl, inr, sym,
  ◌∙◌, ap,
}
use altered_ccbench_fork.Machine.{Config, Local, Lines, ok}
use altered_ccbench_fork.Worker.Program.{Action, Call, call, barrier}
use altered_ccbench_fork.Worker.Exec.{exec}
use altered_ccbench_fork.Worker.Round.{Team, run, meet, Reach, here, next, Finished, exec_all}

-- A program that calls, and one that only waits.
abbrev pub calls : List Call → List Action
calls = map call

abbrev pub waits : List ℕ → List Action
waits = map barrier

exec_all-step :
    (c : Config) (reps : ℕ) (a : Call) (rest : List Call) (l : Local) (w : Lines) {l' : Local}
    {w' : Lines}
    → exec c reps a l w ≡ ok tt l' w'
    → exec_all c reps (a ∷ rest) l w ≡ exec_all c reps rest l' w'
unfolding exec_all
exec_all-step c reps a rest l w e = rw e

-- `first` by thread 0 before the barrier `b`, `second` by thread 1 after it, and then the barriers
-- `rest` for all.
pub record Handoff (n : ℕ) (first second : List Call) (b : ℕ) (rest : List ℕ) (s : Team)
    : Type 0 where
  pub zeroth : s.programs 0 ≡ calls first ++ barrier b ∷ waits rest
  pub oneth : s.programs 1 ≡ barrier b ∷ (calls second ++ waits rest)
  pub others : (i : ℕ) → 2 ≤ i → i < n → s.programs i ≡ barrier b ∷ waits rest

pub Handoff-agree :
    {n : ℕ} {first second : List Call} {b : ℕ} {rest : List ℕ} {s t : Team}
    → 2 ≤ n
    → ((i : ℕ) → i < n → t.programs i ≡ s.programs i)
    → Handoff n first second b rest s
    → Handoff n first second b rest t
Handoff-agree two same shape = record {
  zeroth = same 0 (omega (arith, two)) ∙ shape.zeroth;
  oneth = same 1 (omega (arith, two)) ∙ shape.oneth;
  others = λ i low lt. same i lt ∙ shape.others i low lt;
}

module _ (c : Config) (n reps : ℕ) (two : 2 ≤ n) (first second : List Call) (b : ℕ) (rest : List ℕ)
    (s : Team) where
  -- Before the barrier.
  record Before (left : List Call) (t : Team) : Type 0 where
    shape : Handoff n left second b rest t
    same : t.locals 1 ≡ s.locals 1
    ahead : exec_all c reps left (t.locals 0) t.lines ≡ exec_all c reps first (s.locals 0) s.lines

  -- After it.
  record After (left : List Call) (barriers : List ℕ) (t : Team) : Type 0 where
    lines : Lines
    done : exec_all c reps first (s.locals 0) s.lines ≡ ok tt (t.locals 0) lines
    ahead : exec_all c reps left (t.locals 1) t.lines ≡ exec_all c reps second (s.locals 1) lines
    zeroth : t.programs 0 ≡ waits barriers
    oneth : t.programs 1 ≡ calls left ++ waits barriers
    others : (i : ℕ) → 2 ≤ i → i < n → t.programs i ≡ waits barriers

  abbrev Phase : Team → Type 0
  Phase t =
      ((left : List Call) × Before left t)
      ⊎ ((left : List Call) × (barriers : List ℕ) × After left barriers t)

  run-Before :
      (left : List Call) (t : Team) (i : ℕ) {a : Call} {p : List Action} {l : Local} {w : Lines}
      → Before left t
      → i < n
      → t.programs i ≡ call a ∷ p
      → exec c reps a (t.locals i) t.lines ≡ ok tt l w
      → Phase (record { programs = update t.programs i p; locals = update t.locals i l; lines = w })
  run-Before [] t zero inv lt e x = absurd (cc (inv.shape.zeroth))
  run-Before (a0 ∷ left) t zero {a} {p} {l} {w} inv lt e x =
      let same_call : a ≡ a0 = cc (inv.shape.zeroth) in
      let same_rest : p ≡ calls left ++ barrier b ∷ waits rest = cc (inv.shape.zeroth) in
      inl (
        left,
        record {
          shape = record {
            zeroth = same_rest;
            oneth = inv.shape.oneth;
            others = λ j low lj. ground (arith, inv.shape.others j low lj);
          };
          same = inv.same;
          ahead =
              sym (
                exec_all-step c reps a0 left _ _
                  (ap (λ k. exec c reps k (t.locals 0) t.lines) (sym same_call) ∙ x))
              ∙ inv.ahead;
        },
      )
  run-Before left t (suc zero) inv lt e x = absurd (cc (inv.shape.oneth))
  run-Before left t (suc (suc i)) inv lt e x =
      absurd (cc (inv.shape.others (suc (suc i)) (omega arith) lt))

  run-After :
      (left : List Call) (barriers : List ℕ) (t : Team) (i : ℕ) {a : Call} {p : List Action}
      {l : Local} {w : Lines}
      → After left barriers t
      → i < n
      → t.programs i ≡ call a ∷ p
      → exec c reps a (t.locals i) t.lines ≡ ok tt l w
      → Phase (record { programs = update t.programs i p; locals = update t.locals i l; lines = w })
  run-After left [] t zero inv lt e x = absurd (cc (inv.zeroth))
  run-After left (b' ∷ bs) t zero inv lt e x = absurd (cc (inv.zeroth))
  run-After [] [] t (suc zero) inv lt e x = absurd (cc (inv.oneth))
  run-After [] (b' ∷ bs) t (suc zero) inv lt e x = absurd (cc (inv.oneth))
  run-After (a0 ∷ left) barriers t (suc zero) {a} {p} {l} {w} inv lt e x =
      let same_call : a ≡ a0 = cc (inv.oneth) in
      let same_rest : p ≡ calls left ++ waits barriers = cc (inv.oneth) in
      inr (
        left,
        barriers,
        record {
          lines = inv.lines;
          done = inv.done;
          ahead =
              sym (
                exec_all-step c reps a0 left _ _
                  (ap (λ k. exec c reps k (t.locals 1) t.lines) (sym same_call) ∙ x))
              ∙ inv.ahead;
          zeroth = inv.zeroth;
          oneth = same_rest;
          others = λ j low lj. ground (arith, inv.others j low lj);
        },
      )
  run-After left [] t (suc (suc i)) inv lt e x =
      absurd (cc (inv.others (suc (suc i)) (omega arith) lt))
  run-After left (b' ∷ bs) t (suc (suc i)) inv lt e x =
      absurd (cc (inv.others (suc (suc i)) (omega arith) lt))

  run-Phase :
      (t : Team) (ph : Phase t) (i : ℕ) {a : Call} {p : List Action} {l : Local} {w : Lines}
      → i < n
      → t.programs i ≡ call a ∷ p
      → exec c reps a (t.locals i) t.lines ≡ ok tt l w
      → Phase (record { programs = update t.programs i p; locals = update t.locals i l; lines = w })
  run-Phase t (inl (left, inv)) i lt e x = run-Before left t i inv lt e x
  run-Phase t (inr (left, barriers, inv)) i lt e x = run-After left barriers t i inv lt e x

  meet-Phase :
      (t : Team) (b' : ℕ) (p : ℕ → List Action)
      → Phase t
      → ((i : ℕ) → i < n → t.programs i ≡ barrier b' ∷ p i)
      → Phase (record t { programs = p })
  meet-Phase t b' p (inl ([], inv)) e =
      let e0 = e 0 (omega arith) in
      let e1 = e 1 (omega arith) in
      inr (
        second,
        rest,
        record {
          lines = t.lines;
          done = sym (inv.ahead) ∙ unfold exec_all in refl;
          ahead = ap (λ l. exec_all c reps second l t.lines) (inv.same);
          zeroth = cc (inv.shape.zeroth);
          oneth = cc (inv.shape.oneth);
          others = λ j low lj. cc (inv.shape.others j low lj, e j lj);
        },
      )
  meet-Phase t b' p (inl (a ∷ left, inv)) e = absurd (cc (inv.shape.zeroth, e 0 (omega arith)))
  meet-Phase t b' p (inr (left, [], inv)) e = absurd (cc (inv.zeroth, e 0 (omega arith)))
  meet-Phase t b' p (inr ([], b2 ∷ bs, inv)) e = inr (
    [],
    bs,
    record {
      lines = inv.lines;
      done = inv.done;
      ahead = inv.ahead;
      zeroth = cc (inv.zeroth, e 0 (omega arith));
      oneth = cc (inv.oneth, e 1 (omega arith));
      others = λ j low lj. cc (inv.others j low lj, e j lj);
    },
  )
  meet-Phase t b' p (inr (a ∷ left, b2 ∷ bs, inv)) e = absurd (cc (inv.oneth, e 1 (omega arith)))

  module _ (start : Handoff n first second b rest s) where
    Reach-Phase : {t : Team} → Reach c n reps s t → Phase t
    Reach-Phase here = inl (first, record { shape = start; same = refl; ahead = refl })
    Reach-Phase (next {t} r (run i lt e x)) = run-Phase t (Reach-Phase r) i lt e x
    Reach-Phase (next {t} r (meet b' p e)) = meet-Phase t b' p (Reach-Phase r) e

    -- When of at least two threads the first works only before the barrier and the second only
    -- after it, every interleaving in which all threads finish has the effect of one sequential
    -- execution: the calls of thread 0 on the first lines, and then the calls of thread 1.
    pub Handoff-result :
        {t : Team}
        → Reach c n reps s t
        → Finished n t
        → (w : Lines) × (exec_all c reps first (s.locals 0) s.lines ≡ ok tt (t.locals 0) w)
          × (exec_all c reps second (s.locals 1) w ≡ ok tt (t.locals 1) t.lines)
    Handoff-result {t} r f = result t (Reach-Phase r) (f 0 (omega arith)) (f 1 (omega arith))
      where
        result :
            (u : Team)
            → Phase u
            → u.programs 0 ≡ []
            → u.programs 1 ≡ []
            → (w : Lines) × (exec_all c reps first (s.locals 0) s.lines ≡ ok tt (u.locals 0) w)
              × (exec_all c reps second (s.locals 1) w ≡ ok tt (u.locals 1) u.lines)
        result u (inl ([], inv)) f0 f1 = absurd (cc (inv.shape.zeroth))
        result u (inl (a ∷ left, inv)) f0 f1 = absurd (cc (inv.shape.zeroth))
        result u (inr (left, b2 ∷ bs, inv)) f0 f1 = absurd (cc (inv.zeroth))
        result u (inr (a ∷ left, [], inv)) f0 f1 = absurd (cc (inv.oneth))
        result u (inr ([], [], inv)) f0 f1 =
            (inv.lines, inv.done, sym (inv.ahead) ∙ unfold exec_all in refl)

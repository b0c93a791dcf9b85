-- ===== src/Worker/Round/Opening.antt =====
-- A round that all threads begin at the same barrier, behind calls that change no value.
use altered_ccbench_fork.Common.{
  ℕ, ◌<◌, ◌≡◌, ◌∙◌, refl, update_self, update_ne, List, [], ◌∷◌, ◌++◌, All, ◌⊎◌, inl, inr,
  ℕ_discrete,
}
use altered_ccbench_fork.Machine.{Config, Local, Lines, ok}
use altered_ccbench_fork.Worker.Program.{Action, Call, call, barrier}
use altered_ccbench_fork.Worker.Exec.{exec}
use altered_ccbench_fork.Worker.Round.{Team, Step, run, meet, Reach, here, next, Finished}
use altered_ccbench_fork.Worker.Round.Handoff.{calls}

pub Reach-trans :
    {c : Config} {n reps : ℕ} {s t u : Team}
    → Reach c n reps s t
    → Reach c n reps t u
    → Reach c n reps s u
Reach-trans r here = r
Reach-trans r (next q st) = next (Reach-trans r q) st

-- The variables that the operations on a line use.
pub record Kept (l l' : Local) : Type 0 where
  pub line : l'.cache_line ≡ l.cache_line
  pub total : l'.sum ≡ l.sum
  pub seeds : l'.seeds ≡ l.seeds

pub Kept-refl : (l : Local) → Kept l l
Kept-refl l = record { line = refl; total = refl; seeds = refl }

pub Kept-trans : {l l' l'' : Local} → Kept l l' → Kept l' l'' → Kept l l''
Kept-trans a b = record {
  line = b.line ∙ a.line;
  total = b.total ∙ a.total;
  seeds = b.seeds ∙ a.seeds;
}

-- A call that always returns and keeps these variables and the lines.
abbrev pub IsHarmless : Config → ℕ → Call → Type 0
IsHarmless c reps a =
    (l : Local) (w : Lines) → (l' : Local) × (exec c reps a l w ≡ ok tt l' w) × Kept l l'

module _ (c : Config) (n reps b : ℕ) (p : ℕ → List Action) (s : Team) where
  -- Thread `i` on its way to the barrier.
  abbrev Comes : ℕ → List Action → Local → Type 0
  Comes i program l =
      (left : List Call) × (program ≡ calls left ++ barrier b ∷ p i)
      × All (IsHarmless c reps) left
      × Kept (s.locals i) l

  abbrev Closed : Team → Type 0
  Closed t = ((i : ℕ) → i < n → Comes i (t.programs i) (t.locals i)) × (t.lines ≡ s.lines)

  -- The threads behind the barrier, on the way to `t`.
  abbrev pub Opened : Team → Type 0
  Opened t =
      (o : Team) × ((i : ℕ) → i < n → o.programs i ≡ p i)
      × ((i : ℕ) → i < n → Kept (s.locals i) (o.locals i))
      × (o.lines ≡ s.lines)
      × Reach c n reps o t

  run-Comes :
      (t : Team) (i : ℕ) {a : Call} {q : List Action} {l : Local} {w : Lines}
      → Comes i (t.programs i) (t.locals i)
      → t.programs i ≡ call a ∷ q
      → exec c reps a (t.locals i) t.lines ≡ ok tt l w
      → Comes i q l × (w ≡ t.lines)
  run-Comes t i ([], at_b, h, k) e done = absurd (cc)
  run-Comes t i {a} {q} {l} {w} (a0 ∷ left, at_b, (h0, h), k) e done =
      let (l', same, k') = h0 (t.locals i) t.lines in
      let same_call : a ≡ a0 = cc in
      let same_rest : q ≡ calls left ++ barrier b ∷ p i = cc in
      let ends : exec c reps a0 (t.locals i) t.lines ≡ ok tt l w = rw same_call at done in
      let same_l : l' ≡ l = cc in
      let same_w : w ≡ t.lines = cc in
      ((left, same_rest, h, rw same_l at (Kept-trans k k')), same_w)

  meet-Comes :
      (t : Team) (i : ℕ) {b' : ℕ} {q : List Action}
      → Comes i (t.programs i) (t.locals i)
      → t.programs i ≡ barrier b' ∷ q
      → (q ≡ p i) × Kept (s.locals i) (t.locals i)
  meet-Comes t i ([], at_b, h, k) e = (cc, k)
  meet-Comes t i (a0 ∷ left, at_b, h, k) e = absurd (cc)

  Step-Closed : (t u : Team) → Closed t → Step c n reps t u → Closed u ⊎ Opened u
  Step-Closed t u (comes, sw) (run i {a} {p = q} {l} {w} lt e done) =
      let (mine, same) = run-Comes t i (comes i lt) e done in
      inl (
        λ j lj. elim (ℕ_discrete j i) [
          | yes h ↦ rw (h, update_self t.programs i q, update_self t.locals i l) mine
          | no ne ↦ rw (update_ne t.programs i q j ne, update_ne t.locals i l j ne) (comes j lj)
        ],
        same ∙ sw,
      )
  Step-Closed t u (comes, sw) (meet b' q e) = inr (
    record t { programs = q },
    λ i lt. (meet-Comes t i (comes i lt) (e i lt)).0,
    λ i lt. (meet-Comes t i (comes i lt) (e i lt)).1,
    sw,
    here,
  )

  Reach-cases : {t : Team} → Closed s → Reach c n reps s t → Closed t ⊎ Opened t
  Reach-cases start here = inl start
  Reach-cases start (next {t} {u} r step) = elim (Reach-cases start r) [
    | inl closed ↦ Step-Closed t u closed step
    | inr (o, same, k, sw, q) ↦ inr (o, same, k, sw, next q step)
  ]

  module _ (before : List Call) (harmless : All (IsHarmless c reps) before)
      (stand : (i : ℕ) → i < n → s.programs i ≡ calls before ++ barrier b ∷ p i) where
    start-Closed : Closed s
    start-Closed = (λ i lt. (before, stand i lt, harmless, Kept-refl (s.locals i)), refl)

    -- Threads that finish have passed the barrier first.
    pub Reach-open : {t : Team} → 0 < n → Reach c n reps s t → Finished n t → Opened t
    Reach-open {t} pos r f = elim (Reach-cases start-Closed r) [
      | inl (comes, sw) ↦ absurd (not-Finished t (comes 0 pos) (f 0 pos))
      | inr o ↦ o
    ]
      where
        not-Finished : (t : Team) → Comes 0 (t.programs 0) (t.locals 0) → ¬ (t.programs 0 ≡ [])
        not-Finished t ([], at_b, h, k) e = cc
        not-Finished t (a ∷ left, at_b, h, k) e = cc

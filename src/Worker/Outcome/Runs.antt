-- ===== src/Worker/Outcome/Runs.antt =====
-- A test of `k` repetitions, round after round.
use altered_ccbench_fork.Common.{
  ℕ, zero, suc, ◌≤◌, ◌<◌, ◌≡◌, ◌∙◌, ap, refl, ◌^◌, arith, List, [], ◌∷◌, ◌++◌, All, inl, inr, Bool,
  true, false, Bool-cases,
}
use altered_ccbench_fork.Machine.{Config, Local, Lines, Fence, mfence, clflush, fence, ok}
use altered_ccbench_fork.Access.Sequential.{InRange}
use altered_ccbench_fork.Worker.Event.{Event}
use altered_ccbench_fork.Worker.Program.{
  Action, Call, full_fence, flush_line, test_body, repetition, b0, b3, id_of_rank,
}
use altered_ccbench_fork.Worker.Exec.{exec, exec_at}
use altered_ccbench_fork.Worker.Round.{Team, Reach, Finished, exec_all}
use altered_ccbench_fork.Worker.Round.Opening.{Reach-trans, Kept, IsHarmless, Reach-open}
use altered_ccbench_fork.Worker.Round.Arrival.{open_all}
use altered_ccbench_fork.Worker.Round.Handoff.{Handoff, Handoff-agree, Handoff-result, calls}
use altered_ccbench_fork.Worker.Round.Completion.{Handoff-completes}
use altered_ccbench_fork.Worker.Outcome.Calls.{Ready, Leaves, Returns-at, Returns-ok}

-- Each thread at the start of repetition `reps`.
abbrev pub begin : Config → Event → ℕ → Team → Team
begin c e reps s = record s { programs = λ i. repetition c (id_of_rank i) e reps }

-- What follows B0, for ranks that are their IDs.
abbrev pub rest_of : Config → Event → ℕ → ℕ → List Action
rest_of c e reps i = test_body c i reps e ++ b3 ∷ []

abbrev pub opened : Config → Event → ℕ → Team → Team
opened c e reps s = record s { programs = rest_of c e reps }

id_of_rank-small : (i : ℕ) → i < 2 ^ 8 → id_of_rank i ≡ i
unfolding id_of_rank
id_of_rank-small i lt = omega arith

-- What stands before B0.
flushes : Bool → List Call
flushes true = full_fence ∷ flush_line ∷ full_fence ∷ []
flushes false = []

begin-programs :
    (c : Config) (e : Event) (reps i : ℕ)
    → i < 2 ^ 8
    → repetition c (id_of_rank i) e reps ≡ calls (flushes c.test_flush) ++ b0 ∷ rest_of c e reps i
unfolding repetition flushes
begin-programs c e reps i lt =
    rw (id_of_rank-small i lt)
      (elim (Bool-cases c.test_flush) [ inl h ↦ rw h refl | inr h ↦ rw h refl ])

flushes-IsHarmless :
    (c : Config) (reps : ℕ) (flush : Bool) → All (IsHarmless c reps) (flushes flush)
unfolding flushes exec exec_at fence
flushes-IsHarmless c reps true =
    (fenced (λ l. mfence), (fenced (λ l. clflush l.cache_line), (fenced (λ l. mfence), tt)))
  where
    fenced :
        (f : Local → Fence) (l : Local) (w : Lines)
        → (l' : Local) × (fence (f l) l w ≡ ok tt l' w) × Kept l l'
    fenced f l w = (
      record l { fences = f l ∷ l.fences },
      refl,
      record { line = refl; total = refl; seeds = refl },
    )
flushes-IsHarmless c reps false = tt

Kept-Ready : {c : Config} {cl x : ℕ} {l l' : Local} → Kept l l' → Ready c cl x l → Ready c cl x l'
Kept-Ready k r = record {
  line = k.line ∙ r.line;
  total = k.total ∙ r.total;
  lively = rw k.seeds (r.lively);
}

-- The states after `k` complete repetitions by `n` threads, one after the other.
pub data Runs (c : Config) (n : ℕ) (e : Event) (s : Team) : ℕ → Team → Type 0 where
  none : Runs c n e s 0 s
  more :
      {k : ℕ} {t u : Team}
      → Runs c n e s k t
      → Reach c n k (begin c e k t) u
      → Finished n u
      → Runs c n e s (suc k) u

-- At most 256 threads, so that each has an ID of its own. Threads 0 and 1 before the first
-- repetition: on line `cl`, which holds `x`, with nothing summed. The generators of both draw 0
-- within the fuel of a loop.
pub record Start (c : Config) (n cl x : ℕ) (s : Team) : Type 0 where
  pub two : 2 ≤ n
  pub few : n ≤ 2 ^ 8
  pub range : (reps : ℕ) → reps < c.test_reps → InRange c cl reps
  pub zeroth : Ready c cl 0 (s.locals 0)
  pub oneth : Ready c cl 0 (s.locals 1)
  pub word : s.lines cl ≡ x

-- After `k` repetitions: the sums of the two threads, and the value of the line.
pub record Sums (c : Config) (cl s0 s1 x : ℕ) (t : Team) : Type 0 where
  pub zeroth : Ready c cl s0 (t.locals 0)
  pub oneth : Ready c cl s1 (t.locals 1)
  pub word : t.lines cl ≡ x

-- A test by handoff, with the sums and the value that each part of repetition `k` leaves.
pub record Plan (c : Config) (n cl : ℕ) (e : Event) (sum0 sum1 word : ℕ → ℕ) : Type 0 where
  pub first : ℕ → List Call
  pub second : ℕ → List Call
  pub rest : List ℕ
  pub between : ℕ → ℕ
  pub from_zero : (sum0 0 ≡ 0) × (sum1 0 ≡ 0)
  pub shape : (k : ℕ) (s : Team) → Handoff n (first k) (second k) 2 rest (opened c e k s)
  pub before :
      (k : ℕ) (l : Local) (w : Lines)
      → k < c.test_reps
      → InRange c cl k
      → Ready c cl (sum0 k) l
      → w cl ≡ word k
      → Leaves c cl (sum0 (suc k)) (between k) (exec_all c k (first k) l w)
  pub behind :
      (k : ℕ) (l : Local) (w : Lines)
      → k < c.test_reps
      → InRange c cl k
      → Ready c cl (sum1 k) l
      → w cl ≡ between k
      → Leaves c cl (sum1 (suc k)) (word (suc k)) (exec_all c k (second k) l w)

module _ {c : Config} {n cl : ℕ} {e : Event} {sum0 sum1 word : ℕ → ℕ}
    (plan : Plan c n cl e sum0 sum1 word) where
  module _ (k : ℕ) (lt : k < c.test_reps) (two : 2 ≤ n) (few : n ≤ 2 ^ 8) (range : InRange c cl k)
      (t : Team) (a : Sums c cl (sum0 k) (sum1 k) (word k) t) where
    one_round :
        (u : Team)
        → Reach c n k (begin c e k t) u
        → Finished n u
        → Sums c cl (sum0 (suc k)) (sum1 (suc k)) (word (suc k)) u
    one_round u r f =
        let (o, same, kept, sw, r') =
          Reach-open c n k 0 (rest_of c e k) (begin c e k t) (flushes c.test_flush)
            (flushes-IsHarmless c k c.test_flush)
            (λ i li. begin-programs c e k i (omega (arith, li, few))) (omega (arith, two)) r f in
        let (w, e0, e1) =
          Handoff-result c n k two (plan.first k) (plan.second k) 2 plan.rest o
            (Handoff-agree two same (plan.shape k t)) r' f in
        let (r0, w0) =
          Returns-at (λ v l' w'. Ready c cl (sum0 (suc k)) l' × (w' cl ≡ plan.between k)) _
            (plan.before k (o.locals 0) o.lines lt range
              (Kept-Ready (kept 0 (omega (arith, two))) a.zeroth) (rw sw (a.word)))
            e0 in
        let (r1, w1) =
          Returns-at (λ v l' w'. Ready c cl (sum1 (suc k)) l' × (w' cl ≡ word (suc k))) _
            (plan.behind k (o.locals 1) w lt range
              (Kept-Ready (kept 1 (omega (arith, two))) a.oneth) w0)
            e1 in
        record { zeroth = r0; oneth = r1; word = w1 }

    round_completes : (u : Team) × Reach c n k (begin c e k t) u × Finished n u
    round_completes =
        let (o, path, same, kept, sw) =
          open_all c n k 0 (rest_of c e k) (begin c e k t) (flushes c.test_flush)
            (flushes-IsHarmless c k c.test_flush)
            (λ i li. begin-programs c e k i (omega (arith, li, few))) in
        let (v0, l0, w0, e0, (r0, x0)) =
          Returns-ok (λ v l' w'. Ready c cl (sum0 (suc k)) l' × (w' cl ≡ plan.between k)) _
            (plan.before k (o.locals 0) o.lines lt range (Kept-Ready (kept 0) a.zeroth)
              (rw sw (a.word))) in
        let (v1, l1, w1, e1, (r1, x1)) =
          Returns-ok (λ v l' w'. Ready c cl (sum1 (suc k)) l' × (w' cl ≡ word (suc k))) _
            (plan.behind k (o.locals 1) w0 lt range (Kept-Ready (kept 1) a.oneth) x0) in
        let (u, r, f) =
          Handoff-completes c n k (plan.second k) o (plan.first k) 2 plan.rest two
            (Handoff-agree two (λ i li. ap (λ q. q i) same) (plan.shape k t)) e0 e1 in
        (u, Reach-trans path r, f)

  pub Plan-results :
      {s : Team} {k : ℕ} {t : Team}
      → Start c n cl (word 0) s
      → Runs c n e s k t
      → k ≤ c.test_reps
      → Sums c cl (sum0 k) (sum1 k) (word k) t
  Plan-results st none le = record {
    zeroth = rw (plan.from_zero.0) (st.zeroth);
    oneth = rw (plan.from_zero.1) (st.oneth);
    word = st.word;
  }
  Plan-results st (more {k} {t} {u} runs r f) le =
      one_round k (omega arith) st.two st.few (st.range k (omega arith)) t
        (Plan-results st runs (omega arith)) u r f

  pub Plan-completes :
      (s : Team) (k : ℕ) → Start c n cl (word 0) s → k ≤ c.test_reps → (t : Team) × Runs c n e s k t
  Plan-completes s zero st le = (s, none)
  Plan-completes s (suc k) st le =
      let (t, runs) = Plan-completes s k st (omega arith) in
      let (u, r, f) =
        round_completes k (omega arith) st.two st.few (st.range k (omega arith)) t
          (Plan-results st runs (omega arith)) in
      (u, more runs r f)

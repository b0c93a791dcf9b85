-- ===== src/Barrier/Invariant/Keep.antt =====
-- The invariant holds at the start, and every access of every thread keeps it.
use altered_ccbench_fork.Common.{
  ℕ, ◌+◌, ◌%◌, ◌^◌, ◌≤◌, ◌<◌, ◌≡◌, refl, if◌then◌else◌, ◌==◌, arith, dec_lt, total, total-update,
  total-eq-zero, total_full, update, ◌∙◌,
}
use altered_ccbench_fork.Barrier.Wait.{Barrier, Thread, step, fai_u64}
use altered_ccbench_fork.Barrier.System.{System, Reach, start, later, init}
use altered_ccbench_fork.Barrier.Invariant.Stage.{passed, arrived, counter, cleared, crossed, Inv}
use altered_ccbench_fork.Barrier.Invariant.Effect.{
  Effect, stay, reset, count, leave, step-Effect, step_frame,
}

module _ {n m : ℕ} {s : System} (inv : Inv n s m) (i : ℕ) (lt : i < n) (b' : Barrier) (t' : Thread)
    (parts' : b'.num_participants ≡ s.bar.num_participants)
    (colors' : (j : ℕ) → b'.color j ≡ s.bar.color j) where
  open inv use {parts, small, colors, near, counted, short, ready, full}

  abbrev t : Thread
  t = s.threads i

  abbrev after : System
  after = record { bar = b'; threads = update s.threads i t' }

  sums :
      total (crossed m) n (update s.threads i t') + crossed m t
      ≡ total (crossed m) n s.threads + crossed m t'
  sums = total-update (crossed m) n s.threads i t' lt

  keep_stay :
      ((x : ℕ) → counter b' x ≡ counter s.bar x)
      → passed t' ≡ passed t
      → arrived t' ≡ arrived t
      → cleared t'.pc ≤ cleared t.pc
      → Inv n after m
  keep_stay c p a cl = record {
    parts = parts' ∙ parts;
    small = small;
    colors = λ j. colors' j ∙ colors j;
    near = λ j lj. ground (arith, near j, near i);
    counted = ground (arith, c m, sums);
    short = ground (arith, sums);
    ready = λ j lj pj cj. ground (arith, c (m + 1), ready j, ready i);
    full = λ h. c (m + 2) ∙ full h;
  }

  keep_reset :
      ((x : ℕ) → counter b' x ≡ (if x % 3 == (passed t + 1) % 3 then 0 else counter s.bar x))
      → passed t' ≡ passed t
      → arrived t ≡ passed t
      → arrived t' ≡ passed t
      → Inv n after m
  keep_reset c p a a' = record {
    parts = parts' ∙ parts;
    small = small;
    colors = λ j. colors' j ∙ colors j;
    near = λ j lj. ground (arith, near j, near i);
    counted = ground (arith, c m, sums, near i);
    short = ground (arith, sums, near i);
    ready = λ j lj pj cj. ground (arith, c (m + 1), near i);
    full = λ h. ground (arith, c (m + 2), near i, full);
  }

  -- The last thread to arrive opens the next stage.
  keep_count :
      ((x : ℕ)
        → counter b' x
          ≡ (if x % 3 == passed t % 3 then fai_u64 (counter s.bar x) else counter s.bar x))
      → passed t' ≡ passed t
      → arrived t ≡ passed t
      → arrived t' ≡ passed t + 1
      → 1 ≤ cleared t.pc
      → (m' : ℕ) × Inv n after m'
  keep_count c p a a' cl = elim (dec_lt (total (crossed m) n s.threads + 1) n) [
    | yes more ↦ (
      m,
      record {
        parts = parts' ∙ parts;
        small = small;
        colors = λ j. colors' j ∙ colors j;
        near = λ j lj. ground (arith, near j, near i);
        counted = ground (arith, c m, sums, near i);
        short = ground (arith, sums, near i);
        ready = λ j lj pj cj. ground (arith, c (m + 1), near i, ready i);
        full = λ h. ground (arith, c (m + 2), near i, full);
      },
    )
    | no last ↦
        let filled : n ≤ total (crossed m) n after.threads = ground (arith, sums, near i) in
        let all = total_full (crossed m) (λ u. ground arith) n after.threads filled in
        let near' : (j : ℕ)
            → j < n
            → (passed (after.threads j) ≤ m)
              × (m + 1 ≤ arrived (after.threads j))
              × (arrived (after.threads j) ≤ m + 1) =
          λ j lj. ground (arith, near j, near i, all j) in
        let none : total (crossed (m + 1)) n after.threads ≡ 0 =
          total-eq-zero (crossed (m + 1)) n after.threads (λ j lj. ground (arith, near' j)) in
        (
          m + 1,
          record {
            parts = parts' ∙ parts;
            small = small;
            colors = λ j. colors' j ∙ colors j;
            near = λ j lj. ground (arith, near' j);
            counted = ground (arith, none, c (m + 1), near i, ready i);
            short = omega (arith, none);
            ready = λ j lj pj cj. absurd (omega (arith, near' j lj));
            full = λ h. ground (arith, c (m + 1 + 2), c m, near i);
          },
        )
  ]

  keep_leave :
      ((x : ℕ) → counter b' x ≡ counter s.bar x)
      → s.bar.num_participants ≤ counter s.bar (passed t)
      → arrived t ≡ passed t + 1
      → passed t' ≡ passed t + 1
      → arrived t' ≡ passed t + 1
      → cleared t'.pc ≡ 0
      → Inv n after m
  keep_leave c done a p' a' cl =
      let behind : passed t + 1 ≡ m = ground (arith, near i) in
      record {
        parts = parts' ∙ parts;
        small = small;
        colors = λ j. colors' j ∙ colors j;
        near = λ j lj. ground (arith, near j, near i);
        counted = ground (arith, c m, sums);
        short = ground (arith, sums);
        ready = λ j lj pj cj. ground (arith, c (m + 1), ready j);
        full = λ h. c (m + 2) ∙ full h;
      }

  pub Effect-Inv : Effect s.bar t b' t' → (m' : ℕ) × Inv n after m'
  Effect-Inv (stay c p a cl) = (m, keep_stay c p a cl)
  Effect-Inv (reset c p a a') = (m, keep_reset c p a a')
  Effect-Inv (count c p a a' cl) = keep_count c p a a' cl
  Effect-Inv (leave c done a p' a' cl) = (m, keep_leave c done a p' a' cl)

Inv-init : (n : ℕ) → 0 < n → n < 2 ^ 64 → Inv n (init n) 0
Inv-init n pos small =
    let none : total (crossed 0) n (init n).threads ≡ 0 =
      total-eq-zero (crossed 0) n (init n).threads (λ j lj. refl) in
    record {
      parts = refl;
      small = small;
      colors = λ i. refl;
      near = λ i lt. omega arith;
      counted = omega (arith, none);
      short = omega (arith, none);
      ready = λ i lt p c. refl;
      full = λ h. absurd (omega arith);
    }

pub Reach-Inv : {n : ℕ} {s : System} → 0 < n → n < 2 ^ 64 → Reach n s → (m : ℕ) × Inv n s m
Reach-Inv {n} pos small start = (0, Inv-init n pos small)
Reach-Inv pos small (later {s} r i lt) =
    let (m, inv) = Reach-Inv pos small r in
    let t = s.threads i in
    let (parts', colors') = step_frame i s.bar t.returned (inv.colors i) t.pc in
    Effect-Inv inv i lt (step i s.bar t.pc t.returned).0 (step i s.bar t.pc t.returned).1 parts'
      colors' (step-Effect i s.bar t.returned (inv.colors i) t.pc)

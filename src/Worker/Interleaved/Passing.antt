-- ===== src/Worker/Interleaved/Passing.antt =====
-- A schedule in which all threads pass a barrier: each access of `barrier_wait` by all of them in
-- turn.
use altered_ccbench_fork.Common.{ℕ, ◌+◌, ◌^◌, ◌≤◌, ◌<◌, ◌≡◌, refl, arith, List, ltb, false}
use altered_ccbench_fork.Machine.{Config}
use altered_ccbench_fork.Barrier.Wait.{
  Barrier, Pc, outside, reset2, count1, wait1, reset3, count2, wait2, reset1, count3, wait3, step,
  at,
}
use altered_ccbench_fork.Worker.Program.{Action}
use altered_ccbench_fork.Worker.Interleaved.{State}
use altered_ccbench_fork.Worker.Interleaved.Sweep.{Everyone, sweep, held, weaken}

-- The barrier of `n` threads with the values of the counters.
pub record Counts (n : ℕ) (c1 c2 c3 : ℕ → Type 0) (bar : Barrier) : Type 0 where
  pub parts : bar.num_participants ≡ n
  pub colors : (i : ℕ) → bar.color i ≡ 1
  pub first : c1 bar.num_crossing1
  pub second : c2 bar.num_crossing2
  pub third : c3 bar.num_crossing3

abbrev pub Any : ℕ → Type 0
Any x = Unit {0}

abbrev pub Is : ℕ → ℕ → Type 0
Is v x = x ≡ v

-- Reset, from the first thread on.
abbrev pub Gone : ℕ → ℕ → Type 0
Gone m x = 1 ≤ m → x ≡ 0

module _ (c : Config) (n reps b k : ℕ) (small : n < 2 ^ 64) (p : ℕ → List Action) (f : State) where
  -- All stand at the barrier, before the same access.
  abbrev pub All : Pc → (ℕ → Type 0) → (ℕ → Type 0) → (ℕ → Type 0) → Type 0
  All pc c1 c2 c3 = Everyone c n reps b p f (at pc k) (held c n reps b p f) (Counts n c1 c2 c3)

  let_through : {x parts : ℕ} → Is n x → parts ≡ n → ltb x parts ≡ false
  let_through e e' = ground arith

  -- A counter that is not yet reset.
  unreset :
      {c1 c2 c3 d1 d2 d3 : ℕ → Type 0} (pc : Pc)
      → ((x : ℕ) → c1 x → d1 x)
      → ((x : ℕ) → c2 x → d2 x)
      → ((x : ℕ) → c3 x → d3 x)
      → All pc c1 c2 c3
      → All pc d1 d2 d3
  unreset pc h1 h2 h3 s =
      weaken c n reps b p f (at pc k) (held c n reps b p f) _ _
        (λ bar h. record {
          parts = h.parts;
          colors = h.colors;
          first = h1 _ h.first;
          second = h2 _ h.second;
          third = h3 _ h.third;
        })
        s

  to_reset2 : All outside (Is 0) Any Any → All reset2 (Is 0) Any Any
  unfolding step
  to_reset2 s =
      sweep c n reps b p f (at outside k) (at reset2 k) (λ m. Counts n (Is 0) Any Any)
        (λ i m bar lt h. rw (h.colors i) (refl, h)) s

  reset_second : All reset2 (Is 0) (Gone 0) Any → All count1 (Is 0) (Gone n) Any
  unfolding step
  reset_second s =
      sweep c n reps b p f (at reset2 k) (at count1 k) (λ m. Counts n (Is 0) (Gone m) Any)
        (λ i m bar lt h. (
          refl,
          record {
            parts = h.parts;
            colors = h.colors;
            first = h.first;
            second = λ le. refl;
            third = h.third;
          },
        ))
        s

  count_first : All count1 (Is 0) (Is 0) Any → All wait1 (Is n) (Is 0) Any
  unfolding step
  count_first s =
      sweep c n reps b p f (at count1 k) (at wait1 k) (λ m. Counts n (Is m) (Is 0) Any)
        (λ i m bar lt h. (
          refl,
          record {
            parts = h.parts;
            colors = h.colors;
            first = ground (arith, h.first);
            second = h.second;
            third = h.third;
          },
        ))
        s

  leave_first : All wait1 (Is n) (Is 0) Any → All reset3 (Is n) (Is 0) Any
  unfolding step
  leave_first s =
      sweep c n reps b p f (at wait1 k) (at reset3 k) (λ m. Counts n (Is n) (Is 0) Any)
        (λ i m bar lt h. rw (let_through h.first h.parts) (refl, h)) s

  reset_third : All reset3 (Is n) (Is 0) (Gone 0) → All count2 (Is n) (Is 0) (Gone n)
  unfolding step
  reset_third s =
      sweep c n reps b p f (at reset3 k) (at count2 k) (λ m. Counts n (Is n) (Is 0) (Gone m))
        (λ i m bar lt h. (
          refl,
          record {
            parts = h.parts;
            colors = h.colors;
            first = h.first;
            second = h.second;
            third = λ le. refl;
          },
        ))
        s

  count_second : All count2 (Is n) (Is 0) (Is 0) → All wait2 (Is n) (Is n) (Is 0)
  unfolding step
  count_second s =
      sweep c n reps b p f (at count2 k) (at wait2 k) (λ m. Counts n (Is n) (Is m) (Is 0))
        (λ i m bar lt h. (
          refl,
          record {
            parts = h.parts;
            colors = h.colors;
            first = h.first;
            second = ground (arith, h.second);
            third = h.third;
          },
        ))
        s

  leave_second : All wait2 (Is n) (Is n) (Is 0) → All reset1 (Is n) (Is n) (Is 0)
  unfolding step
  leave_second s =
      sweep c n reps b p f (at wait2 k) (at reset1 k) (λ m. Counts n (Is n) (Is n) (Is 0))
        (λ i m bar lt h. rw (let_through h.second h.parts) (refl, h)) s

  reset_first : All reset1 (Gone 0) (Is n) (Is 0) → All count3 (Gone n) (Is n) (Is 0)
  unfolding step
  reset_first s =
      sweep c n reps b p f (at reset1 k) (at count3 k) (λ m. Counts n (Gone m) (Is n) (Is 0))
        (λ i m bar lt h. (
          refl,
          record {
            parts = h.parts;
            colors = h.colors;
            first = λ le. refl;
            second = h.second;
            third = h.third;
          },
        ))
        s

  count_third : All count3 (Is 0) (Is n) (Is 0) → All wait3 (Is 0) (Is n) (Is n)
  unfolding step
  count_third s =
      sweep c n reps b p f (at count3 k) (at wait3 k) (λ m. Counts n (Is 0) (Is n) (Is m))
        (λ i m bar lt h. (
          refl,
          record {
            parts = h.parts;
            colors = h.colors;
            first = h.first;
            second = h.second;
            third = ground (arith, h.third);
          },
        ))
        s

  leave_third :
      All wait3 (Is 0) (Is n) (Is n)
      → Everyone c n reps b p f (at outside (k + 1)) p (Counts n (Is 0) (Is n) (Is n))
  unfolding step
  leave_third s =
      sweep c n reps b p f (at wait3 k) (at outside (k + 1)) (λ m. Counts n (Is 0) (Is n) (Is n))
        (λ i m bar lt h. rw (let_through h.third h.parts) (refl, h)) s

  early : (A : ℕ → Type 0) (x : ℕ) → A x → Gone 0 x
  early A x a le = absurd (omega arith)

  late : 0 < n → (x : ℕ) → Gone n x → Is 0 x
  late pos x h = h (omega arith)

  same : (A : ℕ → Type 0) (x : ℕ) → A x → A x
  same A x a = a

  pub passes :
      0 < n
      → All outside (Is 0) Any Any
      → Everyone c n reps b p f (at outside (k + 1)) p (Counts n (Is 0) (Is n) (Is n))
  passes pos s0 =
      let two = count_first (
        unreset count1 (same _) (late pos) (same _)
          (reset_second (unreset reset2 (same _) (early _) (same _) (to_reset2 s0)))) in
      let four = count_second (
        unreset count2 (same _) (same _) (late pos)
          (reset_third (unreset reset3 (same _) (same _) (early _) (leave_first two)))) in
      let six = count_third (
        unreset count3 (late pos) (same _) (same _)
          (reset_first (unreset reset1 (early _) (same _) (same _) (leave_second four)))) in
      leave_third six

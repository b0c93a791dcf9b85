-- ===== src/Barrier/Invariant/Effect.antt =====
-- Each shared access of `barrier_wait` is one of four moves of a stage.
use altered_ccbench_fork.Common.{
  ℕ, ◌+◌, ◌%◌, ◌≤◌, ◌≡◌, refl, if◌then◌else◌, ltb, ◌==◌, arith, Bool-cases, inl, inr,
}
use altered_ccbench_fork.Barrier.Wait.{
  Barrier, Pc, Thread, outside, reset2, count1, wait1, reset3, count2, wait2, reset1, count3, wait3,
  step, fai_u64, at,
}
use altered_ccbench_fork.Barrier.Invariant.Stage.{passed, arrived, counter, cleared}

pub data Effect (b : Barrier) (t : Thread) (b' : Barrier) (t' : Thread) : Type 0 where
  stay :
      ((x : ℕ) → counter b' x ≡ counter b x)
      → passed t' ≡ passed t
      → arrived t' ≡ arrived t
      → cleared t'.pc ≤ cleared t.pc
      → Effect b t b' t'
  reset :
      ((x : ℕ) → counter b' x ≡ (if x % 3 == (passed t + 1) % 3 then 0 else counter b x))
      → passed t' ≡ passed t
      → arrived t ≡ passed t
      → arrived t' ≡ passed t
      → Effect b t b' t'
  count :
      ((x : ℕ)
        → counter b' x ≡ (if x % 3 == passed t % 3 then fai_u64 (counter b x) else counter b x))
      → passed t' ≡ passed t
      → arrived t ≡ passed t
      → arrived t' ≡ passed t + 1
      → 1 ≤ cleared t.pc
      → Effect b t b' t'
  leave :
      ((x : ℕ) → counter b' x ≡ counter b x)
      → b.num_participants ≤ counter b (passed t)
      → arrived t ≡ passed t + 1
      → passed t' ≡ passed t + 1
      → arrived t' ≡ passed t + 1
      → cleared t'.pc ≡ 0
      → Effect b t b' t'

module _ (i : ℕ) (b : Barrier) (k : ℕ) (color : b.color i ≡ 1) where
  abbrev Classified : Pc → Type 0
  Classified p = Effect b (at p k) (step i b p k).0 (step i b p k).1

  pub step-Effect : (p : Pc) → Classified p
  unfolding step
  step-Effect outside = rw color (stay (λ x. refl) refl refl (omega arith))
  step-Effect reset2 = reset (λ x. ground arith) refl (omega arith) (omega arith)
  step-Effect count1 = count (λ x. ground arith) refl (omega arith) (omega arith) (omega arith)
  step-Effect wait1 = elim (Bool-cases (ltb b.num_crossing1 b.num_participants)) [
    | inl e ↦ rw e (stay (λ x. refl) refl refl (omega arith))
    | inr e ↦ rw e (leave (λ x. refl) (ground arith) (omega arith) (omega arith) (omega arith) refl)
  ]
  step-Effect reset3 = reset (λ x. ground arith) refl (omega arith) (omega arith)
  step-Effect count2 = count (λ x. ground arith) refl (omega arith) (omega arith) (omega arith)
  step-Effect wait2 = elim (Bool-cases (ltb b.num_crossing2 b.num_participants)) [
    | inl e ↦ rw e (stay (λ x. refl) refl refl (omega arith))
    | inr e ↦ rw e (leave (λ x. refl) (ground arith) (omega arith) (omega arith) (omega arith) refl)
  ]
  step-Effect reset1 = reset (λ x. ground arith) refl (omega arith) (omega arith)
  step-Effect count3 = count (λ x. ground arith) refl (omega arith) (omega arith) (omega arith)
  step-Effect wait3 = elim (Bool-cases (ltb b.num_crossing3 b.num_participants)) [
    | inl e ↦ rw e (stay (λ x. refl) refl refl (omega arith))
    | inr e ↦ rw e (leave (λ x. refl) (ground arith) (omega arith) (omega arith) (omega arith) refl)
  ]

  pub step_frame :
      (p : Pc)
      → ((step i b p k).0.num_participants ≡ b.num_participants)
        × ((j : ℕ) → (step i b p k).0.color j ≡ b.color j)
  unfolding step
  step_frame outside = rw color (refl, λ j. refl)
  step_frame reset2 = (refl, λ j. refl)
  step_frame count1 = (refl, λ j. refl)
  step_frame wait1 = (refl, λ j. refl)
  step_frame reset3 = (refl, λ j. refl)
  step_frame count2 = (refl, λ j. refl)
  step_frame wait2 = (refl, λ j. refl)
  step_frame reset1 = (refl, λ j. refl)
  step_frame count3 = (refl, λ j. refl)
  step_frame wait3 = elim (Bool-cases (ltb b.num_crossing3 b.num_participants)) [
    | inl e ↦ rw e (refl, λ j. refl)
    | inr e ↦ rw e (refl, λ j. refl)
  ]

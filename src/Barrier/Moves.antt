-- ===== src/Barrier/Moves.antt =====
-- What one shared access of `barrier_wait` does to the thread that makes it.
use altered_ccbench_fork.Common.{
  ℕ, ◌+◌, ◌≡◌, ◌≤◌, refl, arith, ltb, Bool, true, false, Bool-cases, inl, inr,
}
use altered_ccbench_fork.Barrier.Wait.{
  Barrier, Pc, Thread, outside, reset2, count1, wait1, reset3, count2, wait2, reset1, count3, wait3,
  step, at,
}
use altered_ccbench_fork.Barrier.Safety.{begun}

abbrev pub is_outside : Pc → Bool
is_outside outside = true
is_outside _ = false

pub data Move (t t' : Thread) : Type 0 where
  enter : is_outside t.pc ≡ true → is_outside t'.pc ≡ false → t'.returned ≡ t.returned → Move t t'
  go_on : is_outside t.pc ≡ false → is_outside t'.pc ≡ false → t'.returned ≡ t.returned → Move t t'
  leave :
      is_outside t.pc ≡ false → is_outside t'.pc ≡ true → t'.returned ≡ t.returned + 1 → Move t t'

-- Over a barrier of the thread's colour.
pub step-Move :
    (i : ℕ) (b : Barrier) (k : ℕ) → b.color i ≡ 1 → (p : Pc) → Move (at p k) (step i b p k).1
unfolding step
step-Move i b k color outside = rw color (enter refl refl refl)
step-Move i b k color reset2 = go_on refl refl refl
step-Move i b k color count1 = go_on refl refl refl
step-Move i b k color wait1 = elim (Bool-cases (ltb b.num_crossing1 b.num_participants)) [
  | inl e ↦ rw e (go_on refl refl refl)
  | inr e ↦ rw e (go_on refl refl refl)
]
step-Move i b k color reset3 = go_on refl refl refl
step-Move i b k color count2 = go_on refl refl refl
step-Move i b k color wait2 = elim (Bool-cases (ltb b.num_crossing2 b.num_participants)) [
  | inl e ↦ rw e (go_on refl refl refl)
  | inr e ↦ rw e (go_on refl refl refl)
]
step-Move i b k color reset1 = go_on refl refl refl
step-Move i b k color count3 = go_on refl refl refl
step-Move i b k color wait3 = elim (Bool-cases (ltb b.num_crossing3 b.num_participants)) [
  | inl e ↦ rw e (go_on refl refl refl)
  | inr e ↦ rw e (leave refl refl refl)
]

pub begun_outside : (t : Thread) → is_outside t.pc ≡ true → begun t ≡ t.returned
begun_outside t e = ground arith

pub begun_inside : (t : Thread) → is_outside t.pc ≡ false → begun t ≡ t.returned + 1
begun_inside t e = ground arith

-- A thread does not return from more calls than it has begun.
pub Move-returned : {t t' : Thread} → Move t t' → t'.returned ≤ begun t
Move-returned (enter o o' m) = ground arith
Move-returned (go_on o o' m) = ground arith
Move-returned (leave o o' m) = ground arith

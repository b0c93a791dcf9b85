-- ===== src/Common/Family.antt =====
-- Families indexed by thread, or memory indexed by cell: a write at one index, and sums over
-- the first `n` indices.
use Prim.Native.Nat.{ℕ, zero, suc, ◌+◌, ◌≤◌, ◌<◌}
use mathlib.Core.Path.{◌≡◌, refl}
use mathlib.Core.Logic.{◌≢◌}
use native.Mathlib.Decide.{dec_lt}
use native.Mathlib.Omega.{arith}
use altered_ccbench_fork.Common.Tests.{if◌then◌else◌, ◌==◌, ltb}

abbrev pub update {ℓ} : {A : Type ℓ} → (ℕ → A) → ℕ → A → ℕ → A
update f i a j = if i == j then a else f j

module _ {ℓ} {A : Type ℓ} where
  pub update_self : (f : ℕ → A) (i : ℕ) (a : A) → update f i a i ≡ a
  update_self f i a = ground arith

  pub update_ne : (f : ℕ → A) (i : ℕ) (a : A) (j : ℕ) → j ≢ i → update f i a j ≡ f j
  update_ne f i a j h = ground arith

module _ {ℓ} {A : Type ℓ} (weight : A → ℕ) where
  -- The weights of the first `count` members.
  pub total : ℕ → (ℕ → A) → ℕ
  total zero family = 0
  total (suc count) family = weight (family count) + total count family

  -- A write below `count` exchanges the weights of the old and the new member; one above it is not
  -- seen.
  exchange :
      (count : ℕ) (family : ℕ → A) (i : ℕ) (new : A)
      → total count (update family i new) + (if ltb i count then weight (family i) else 0)
        ≡ total count family + (if ltb i count then weight new else 0)
  unfolding total
  exchange zero family i new = ground arith
  exchange (suc count) family i new = ground (arith, exchange count family i new)

  pub total-update :
      (count : ℕ) (family : ℕ → A) (i : ℕ) (new : A)
      → i < count
      → total count (update family i new) + weight (family i) ≡ total count family + weight new
  total-update count family i new lt = ground (arith, exchange count family i new)

  pub total-eq-zero :
      (count : ℕ) (family : ℕ → A)
      → ((i : ℕ) → i < count → weight (family i) ≡ 0)
      → total count family ≡ 0
  unfolding total
  total-eq-zero zero family h = refl
  total-eq-zero (suc count) family h =
      omega (arith, h count (omega arith), total-eq-zero count family (λ i lt. h i (omega arith)))

  pub total-le :
      ((a : A) → weight a ≤ 1) → (count : ℕ) (family : ℕ → A) → total count family ≤ count
  unfolding total
  total-le small zero family = omega arith
  total-le small (suc count) family =
      omega (arith, small (family count), total-le small count family)

  -- A sum of `count` weights of at most one that reaches `count` has every weight one.
  pub total_full :
      ((a : A) → weight a ≤ 1)
      → (count : ℕ) (family : ℕ → A) → count ≤ total count family
      → (i : ℕ) → i < count
      → 1 ≤ weight (family i)
  unfolding total
  total_full small zero family h i lt = absurd (omega arith)
  total_full small (suc count) family h i lt = elim (dec_lt i count) [
    | yes below ↦ total_full small count family (omega (arith, small (family count))) i below
    | no last ↦
        let e : i ≡ count = omega arith in
        rw e (omega (arith, small (family count), total-le small count family))
  ]

  -- A sum below `count` has an index with weight zero.
  pub total_gap :
      (count : ℕ) (family : ℕ → A)
      → total count family < count
      → (i : ℕ) × (i < count) × (weight (family i) ≡ 0)
  unfolding total
  total_gap zero family h = absurd (omega arith)
  total_gap (suc count) family h = elim (dec_lt (total count family) count) [
    | yes lt ↦ let (i, below, e) = total_gap count family lt in (i, omega arith, e)
    | no ge ↦ (count, omega arith, omega arith)
  ]

-- ===== src/Statistics/Delta.antt =====
-- The least difference of two readings.
use altered_ccbench_fork.Common.{
  ℕ, suc, ◌-◌, ◌^◌, ◌<◌, ◌≤◌, ◌≡◌, ◌⊎◌, inl, inr, refl, subst, arith, Bool, true, false, ◌&&◌, List,
  [], ◌∷◌, some, get_elem?, All, if◌then◌else◌, ltb, ◌==◌, Bool-cases, then_case, else_case,
}
use altered_ccbench_fork.Statistics.Correction.{deltas, least_delta, measure_minimum_tick_delta}

abbrev In : ℕ → List ℕ → Type 0
In r ds = (i : ℕ) × (get_elem? ds i ≡ some r)

In-cons : (r x : ℕ) (ds : List ℕ) → In r ds → In r (x ∷ ds)
In-cons r x ds (i, e) = (suc i, e)

-- The loop keeps `best`, or ends with a smaller difference; every difference is 0 or not below what it
-- ends with.
abbrev Least : List ℕ → ℕ → ℕ → Type 0
Least ds best r = ((r ≡ best) ⊎ (In r ds × (0 < r))) × (r ≤ best) × All (λ x. (x ≡ 0) ⊎ (r ≤ x)) ds

passed : (x best r : ℕ) → (ltb 0 x && ltb x best) ≡ false → r ≤ best → (x ≡ 0) ⊎ (r ≤ x)
passed x best r e low = ground arith

step :
    (b : Bool) (x best r : ℕ) (ds : List ℕ)
    → (ltb 0 x && ltb x best) ≡ b
    → Least ds (if b then x else best) r
    → Least (x ∷ ds) best r
step true x best r ds e (inl same, low, all) = (
  inr ((0, ground arith), ground (arith, same)),
  ground (arith, low),
  (inr (omega (arith, low)), all),
)
step true x best r ds e (inr (there, more), low, all) =
    (inr (In-cons r x ds there, more), ground (arith, low), (inr (omega (arith, low)), all))
step false x best r ds e (inl same, low, all) = (inl same, low, (passed x best r e low, all))
step false x best r ds e (inr (there, more), low, all) =
    (inr (In-cons r x ds there, more), low, (passed x best r e low, all))

least_delta-Least : (ds : List ℕ) (best : ℕ) → Least ds best (least_delta ds best)
unfolding least_delta
least_delta-Least [] best = (inl refl, omega arith, tt)
least_delta-Least (x ∷ ds) best =
    step (ltb 0 x && ltb x best) x best _ ds refl
      (least_delta-Least ds (if ltb 0 x && ltb x best then x else best))

abbrev pub Measured : List ℕ → ℕ → Type 0
Measured ds r =
    ((r ≡ 0) × All (λ x. (x ≡ 0) ⊎ (2 ^ 64 - 1 ≤ x)) ds)
    ⊎ ((0 < r) × In r ds × All (λ x. (x ≡ 0) ⊎ (r ≤ x)) ds)

finish :
    (best : ℕ) (ds : List ℕ)
    → Least ds (2 ^ 64 - 1) best
    → Measured ds (if best == 2 ^ 64 - 1 then 0 else best)
finish best ds (source, low, all) = elim (Bool-cases (best == 2 ^ 64 - 1)) [
  | inl none_seen ↦
      then_case (Measured ds) (best == 2 ^ 64 - 1) 0 best none_seen
        (inl (refl, subst (λ m. All (λ x. (x ≡ 0) ⊎ (m ≤ x)) ds) (ground arith) all))
  | inr seen ↦ else_case (Measured ds) (best == 2 ^ 64 - 1) 0 best seen (elim source [
    | inl same ↦ absurd (ground (arith, same, seen))
    | inr (there, more) ↦ inr (more, there, all)
  ])
]

-- `measure_minimum_tick_delta` returns the least difference of two readings in a row that is not 0, or
-- 0 when every difference is 0 or 2 ^ 64 - 1.
pub measure_minimum_tick_delta-Measured :
    (ticks : ℕ → ℕ) (readings attempts : ℕ)
    → Measured (deltas ticks attempts readings) (measure_minimum_tick_delta ticks readings attempts)
unfolding measure_minimum_tick_delta
measure_minimum_tick_delta-Measured ticks readings attempts =
    let ds = deltas ticks attempts readings in
    finish (least_delta ds (2 ^ 64 - 1)) ds (least_delta-Least ds (2 ^ 64 - 1))

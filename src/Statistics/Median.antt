-- ===== src/Statistics/Median.antt =====
-- `ticks_compare` and `median_non_zero_ticks`, with the `qsort` of the C library as an insertion sort.
-- Equal ticks cannot be told apart, so that any sort leaves the same array. The memory that `malloc`
-- fails to give is not modelled.
use altered_ccbench_fork.Common.{
  ℕ, ◌-◌, ◌/◌, ◌%◌, Bool, false, List, [], ◌∷◌, Option, none, some, if◌then◌else◌, ltb, ◌==◌,
  length, get_elem?,
}
use altered_ccbench_fork.Libc.{ℤ, pos, negsuc}
use altered_ccbench_fork.Statistics.Double.{Double}

unfoldable pub ticks_compare : ℕ → ℕ → ℤ
ticks_compare a b = if ltb a b then negsuc 0 else if ltb b a then pos 1 else pos 0

abbrev positive : ℤ → Bool
positive (pos n) = ltb 0 n
positive (negsuc n) = false

abbrev pub insert : (ℕ → ℕ → ℤ) → ℕ → List ℕ → List ℕ
insert compare x [] = x ∷ []
insert compare x (y ∷ ys) =
    let later = insert compare x ys in if positive (compare x y) then y ∷ later else x ∷ y ∷ ys

abbrev pub qsort : (ℕ → ℕ → ℤ) → List ℕ → List ℕ
qsort compare [] = []
qsort compare (x ∷ xs) = insert compare x (qsort compare xs)

-- The loop that fills `scratch`.
unfoldable pub non_zero : List ℕ → List ℕ
non_zero [] = []
non_zero (v ∷ vs) = let rest = non_zero vs in if v == 0 then rest else v ∷ rest

-- An access outside of an array ends what depends on it.
infixl 5 ◌>>=◌
abbrev pub ◌>>=◌ {ℓ κ} : {A : Type ℓ} {B : Type κ} → Option A → (A → Option B) → Option B
none >>= f = none
some a >>= f = f a

module _ {ℓ} {D : Type ℓ} ⦃d : Double D⦄ where
  -- `((double) lower + (double) upper) / 2.0`
  abbrev pub mean : ℕ → ℕ → D
  mean lower upper = d.over (d.plus (d.of_ticks lower) (d.of_ticks upper)) d.two

  -- The median of the sorted array; `none` is an access outside of it.
  unfoldable pub middle_double : List ℕ → Option D
  middle_double scratch =
      let count = length scratch in
      if count % 2 == 0
      then (do
        lower ← get_elem? scratch (count / 2 - 1)
        upper ← get_elem? scratch (count / 2)
        some (mean lower upper))
      else (do middle ← get_elem? scratch (count / 2); some (d.of_ticks middle))

  unfoldable pub median_non_zero_ticks : List ℕ → Option D
  unfolding middle_double non_zero ticks_compare
  median_non_zero_ticks samples =
      let values = non_zero samples in
      if length samples == 0
      then some d.nan
      else if length values == 0
      then some d.nan
      else middle_double (qsort ticks_compare values)

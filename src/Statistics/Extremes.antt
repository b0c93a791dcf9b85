-- ===== src/Statistics/Extremes.antt =====
-- The largest and the smallest value that `get_abs_deviation` finds.
use altered_ccbench_fork.Common.{
  ℕ, suc, ◌+◌, ◌^◌, ◌<◌, ◌≤◌, ◌≡◌, ◌∙◌, ◌⊎◌, inl, inr, ap, refl, sym, subst, arith, Bool, true,
  false, Bool-cases, then_case, else_case, List, [], ◌∷◌, Option, none, some, map, if◌then◌else◌,
  ltb, length, get_elem?, All,
}
use altered_ccbench_fork.Statistics.Double.{Double}
use altered_ccbench_fork.Statistics.Deviation.{
  rest, limited, Extremes, extend, Sums, initial_sums, add_val, add_vals, summarised,
  get_abs_deviation,
}
use altered_ccbench_fork.Statistics.Buckets.{limited-le, get_abs_deviation-ClassOf}

-- A double holds every integer below 2 ^ 53, and DBL_MAX is above them.
pub record IsExact {ℓ} (D : Type ℓ) ⦃d : Double D⦄ : Type ℓ where
  pub lt_of_ticks :
      (m n : ℕ) → m < 2 ^ 53 → n < 2 ^ 53 → d.lt (d.of_ticks m) (d.of_ticks n) ≡ ltb m n
  pub lt_dbl_max : (n : ℕ) → n < 2 ^ 53 → d.lt (d.of_ticks n) d.dbl_max ≡ true

abbrev pub largest : ℕ → List ℕ → ℕ
largest m [] = m
largest m (v ∷ vs) = largest (if ltb m v then v else m) vs

-- The values that do not exceed all values before them, nor 0.
abbrev pub not_records : ℕ → List ℕ → List ℕ
not_records m [] = []
not_records m (v ∷ vs) = if ltb m v then not_records v vs else v ∷ not_records m vs

abbrev pub smaller : Option ℕ → ℕ → ℕ
smaller none v = v
smaller (some n) v = if ltb v n then v else n

abbrev pub least : Option ℕ → List ℕ → Option ℕ
least o [] = o
least o (v ∷ vs) = least (some (smaller o v)) vs

abbrev Small : Option ℕ → Type 0
Small none = Unit
Small (some n) = n < 2 ^ 53

Small-smaller : (o : Option ℕ) (v : ℕ) → Small o → v < 2 ^ 53 → smaller o v < 2 ^ 53
Small-smaller none v low small = small
Small-smaller (some n) v low small = ground arith

-- Where the largest value `top` stands: at `k` before `i`, or in the list, from `i` on.
abbrev pub Position : ℕ → List ℕ → ℕ → ℕ → ℕ → ℕ → Type 0
Position i vs m k idx top =
    ((top ≡ m) × (idx ≡ k)) ⊎ ((j : ℕ) × (idx ≡ i + j) × (get_elem? vs j ≡ some top))

Position-record :
    (i v : ℕ) (vs : List ℕ) (m k idx top : ℕ)
    → Position (i + 1) vs v i idx top
    → Position i (v ∷ vs) m k idx top
Position-record i v vs m k idx top (inl (e, e')) = inr (0, omega (arith, e'), ap some (sym e))
Position-record i v vs m k idx top (inr (j, e, g)) = inr (suc j, omega (arith, e), g)

Position-other :
    (i v : ℕ) (vs : List ℕ) (m k idx top : ℕ)
    → Position (i + 1) vs m k idx top
    → Position i (v ∷ vs) m k idx top
Position-other i v vs m k idx top (inl h) = inl h
Position-other i v vs m k idx top (inr (j, e, g)) = inr (suc j, omega (arith, e), g)

-- DBL_MAX stands for no value.
abbrev pub or_dbl_max {ℓ} : {D : Type ℓ} ⦃d : Double D⦄ → Option ℕ → D
or_dbl_max ⦃d⦄ none = d.dbl_max
or_dbl_max ⦃d⦄ (some n) = d.of_ticks n

module _ {ℓ} {D : Type ℓ} ⦃d : Double D⦄ (exact : IsExact D) where
  lt-smaller :
      (o : Option ℕ) (v : ℕ)
      → Small o
      → v < 2 ^ 53
      → (if d.lt (d.of_ticks v) (or_dbl_max o) then d.of_ticks v else or_dbl_max o)
        ≡ d.of_ticks (smaller o v)
  lt-smaller none v h small = rw (exact.lt_dbl_max v small) refl
  lt-smaller (some n) v h small = rw (exact.lt_of_ticks v n small h) (ground arith)

  -- The loop has seen the largest value `m`, at `k`, and the least value `o` beside the records.
  pub record Seen (e : Extremes D) (m k : ℕ) (o : Option ℕ) : Type ℓ where
    pub max_val : e.max_val ≡ d.of_ticks m
    pub max_val_idx : e.max_val_idx ≡ k
    pub min_val : e.min_val ≡ or_dbl_max o

  extend-record :
      (i v : ℕ) (e : Extremes D) (m k : ℕ) (o : Option ℕ)
      → Seen e m k o
      → m < 2 ^ 53
      → v < 2 ^ 53
      → ltb m v ≡ true
      → Seen (extend i v e) v i o
  unfolding extend
  extend-record i v e m k o h small small' above =
      then_case (λ e'. Seen e' v i o) (d.lt e.max_val (d.of_ticks v)) _ _
        (ap (λ x. d.lt x (d.of_ticks v)) h.max_val ∙ exact.lt_of_ticks m v small small' ∙ above)
        (record { max_val = refl; max_val_idx = refl; min_val = h.min_val })

  lower :
      (b : Bool) (i v : ℕ) (e : Extremes D) (m k : ℕ) (o : Option ℕ)
      → Seen e m k o
      → b ≡ d.lt (d.of_ticks v) (or_dbl_max o)
      → Small o
      → v < 2 ^ 53
      → Seen
          (if b then record e { min_val = d.of_ticks v; min_val_idx = i } else e)
          m
          k
          (some (smaller o v))
  lower true i v e m k o h t low small = record {
    max_val = h.max_val;
    max_val_idx = h.max_val_idx;
    min_val =
        subst (λ b. (if b then d.of_ticks v else or_dbl_max o) ≡ d.of_ticks (smaller o v)) (sym t)
          (lt-smaller o v low small);
  }
  lower false i v e m k o h t low small = record {
    max_val = h.max_val;
    max_val_idx = h.max_val_idx;
    min_val =
        h.min_val
        ∙ subst (λ b. (if b then d.of_ticks v else or_dbl_max o) ≡ d.of_ticks (smaller o v)) (sym t)
            (lt-smaller o v low small);
  }

  extend-other :
      (i v : ℕ) (e : Extremes D) (m k : ℕ) (o : Option ℕ)
      → Seen e m k o
      → m < 2 ^ 53
      → v < 2 ^ 53
      → Small o
      → ltb m v ≡ false
      → Seen (extend i v e) m k (some (smaller o v))
  unfolding extend
  extend-other i v e m k o h small small' low below =
      else_case (λ e'. Seen e' m k (some (smaller o v))) (d.lt e.max_val (d.of_ticks v)) _ _
        (ap (λ x. d.lt x (d.of_ticks v)) h.max_val ∙ exact.lt_of_ticks m v small small' ∙ below)
        (lower (d.lt (d.of_ticks v) e.min_val) i v e m k o h (ap (d.lt (d.of_ticks v)) h.min_val)
          low small')

  add_vals-Seen :
      (avg : D) (i : ℕ) (vs : List ℕ) (s : Sums D) (m k : ℕ) (o : Option ℕ)
      → Seen s.extremes m k o
      → m < 2 ^ 53
      → Small o
      → All (λ v. v < 2 ^ 53) vs
      → (idx : ℕ) × Seen
          (add_vals avg i vs s).extremes
          (largest m vs)
          idx
          (least o (not_records m vs))
        × Position i vs m k idx (largest m vs)
  unfolding add_vals add_val
  add_vals-Seen avg i [] s m k o h small low all = (k, h, inl (refl, refl))
  add_vals-Seen avg i (v ∷ vs) s m k o h small low (small', all) =
      let next = add_val avg i v s in
      let Goal : Bool → Type ℓ = λ b.
        let top = largest (if b then v else m) vs in
        (idx : ℕ) × Seen (add_vals avg (i + 1) vs next).extremes top idx
          (least o (if b then not_records v vs else v ∷ not_records m vs))
        × Position i (v ∷ vs) m k idx top in
      elim (Bool-cases (ltb m v)) [
        | inl above ↦
            let (idx, seen, at) =
              add_vals-Seen avg (i + 1) vs next v i o
                (extend-record i v s.extremes m k o h small small' above) small' low all in
            subst Goal (sym above) (idx, seen, Position-record i v vs m k idx (largest v vs) at)
        | inr below ↦
            let (idx, seen, at) =
              add_vals-Seen avg (i + 1) vs next m k (some (smaller o v))
                (extend-other i v s.extremes m k o h small small' low below) small
                (Small-smaller o v low small') all in
            subst Goal (sym below) (idx, seen, Position-other i v vs m k idx (largest m vs) at)
      ]

largest-le : (m : ℕ) (vs : List ℕ) → (m ≤ largest m vs) × All (λ v. v ≤ largest m vs) vs
largest-le m [] = (omega arith, tt)
largest-le m (v ∷ vs) =
    let (top, all) = largest-le (if ltb m v then v else m) vs in
    (ground (arith, top), (ground (arith, top), all))

limited-All : (vs : List ℕ) → All (λ v. v < 2 ^ 53) (map limited vs)
limited-All [] = tt
limited-All (v ∷ vs) = (omega (arith, limited-le v), limited-All vs)

-- With doubles that are exact below 2 ^ 53, for fewer than 2 ^ 32 values, of which `get_abs_deviation`
-- takes those above 1500 as 0: the maximum is the
-- largest value, and its index is that of this value, or 0 when all values are 0. The minimum is
-- the least of the values that do not exceed 0 and all values before them; it is DBL_MAX when every
-- value does.
pub get_abs_deviation-extremes {ℓ} :
    (D : Type ℓ) ⦃d : Double D⦄ (vals : List ℕ)
    → IsExact D
    → length vals < 2 ^ 32
    → let (r, left) = get_abs_deviation {D = D} vals in
      let top = largest 0 left in
      (left ≡ map limited vals)
      × All (λ v. v ≤ top) left
      × (r.max_val ≡ d.of_ticks top)
      × Position 0 left 0 0 r.max_val_idx top
      × (r.min_val ≡ or_dbl_max (least none (not_records 0 left)))
unfolding get_abs_deviation summarised
get_abs_deviation-extremes D ⦃d⦄ vals exact few =
    let (r, left) = get_abs_deviation {D = D} vals in
    let e = (get_abs_deviation-ClassOf {D = D} vals rest few).0 in
    let (idx, seen, at) =
      add_vals-Seen exact r.avg 0 left initial_sums 0 0 none
        (record { max_val = refl; max_val_idx = refl; min_val = refl }) (omega arith) tt
        (subst (All (λ v. v < 2 ^ 53)) (sym e) (limited-All vals)) in
    (
      e,
      (largest-le 0 left).1,
      seen.max_val,
      subst (λ i. Position 0 left 0 0 i (largest 0 left)) (sym seen.max_val_idx) at,
      seen.min_val,
    )

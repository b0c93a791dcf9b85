-- ===== src/Statistics/Cores.antt =====
-- The least and the greatest average in the summary over the cores.
use altered_ccbench_fork.Common.{
  ℕ, zero, suc, ◌+◌, ◌^◌, ◌<◌, ◌≤◌, ◌≡◌, ◌≢◌, ◌∙◌, ◌⊎◌, inl, inr, ap, subst, refl, sym, arith, Bool,
  true, false, Bool-cases, List, [], ◌∷◌, Option, none, some, if◌then◌else◌, ltb, length, get_elem?,
  All,
}
use altered_ccbench_fork.Machine.{u32}
use altered_ccbench_fork.Statistics.Double.{Double}
use altered_ccbench_fork.Statistics.Deviation.{AbsDeviation, zero_double}
use altered_ccbench_fork.Statistics.Summary.{
  CoreSummary, first_valid, Totals, initial_totals, Report, no_statistics, summary_of, add_core,
  add_stats, add_cores, reported, cross_core_summary, pfd_num_stores,
}

-- `lt` compares the finite values as an order does.
pub record IsOrder {ℓ} (D : Type ℓ) (lt : D → D → Bool) (finite : D → Bool) : Type ℓ where
  pub irreflexive : (a : D) → finite a ≡ true → lt a a ≡ false
  pub asymmetric : (a b : D) → lt a b ≡ true → lt b a ≡ false
  pub negatively_transitive :
      (a b c : D)
      → finite a ≡ true
      → finite b ≡ true
      → finite c ≡ true
      → lt b a ≡ false
      → lt c b ≡ false
      → lt c a ≡ false

-- A core with its average.
pub record Entry {ℓ} (D : Type ℓ) : Type ℓ where
  pub core : ℕ
  pub avg : D

abbrev pub entry {ℓ} : {D : Type ℓ} → ℕ → D → Entry D
entry core avg = record { core = core; avg = avg }

module _ {ℓ} {D : Type ℓ} where
  abbrev pub IsIn : List (Entry D) → ℕ → D → Type ℓ
  IsIn es core avg = (j : ℕ) × (get_elem? es j ≡ some (entry core avg))

  IsIn-later :
      (e : Entry D) (es : List (Entry D)) (core : ℕ) (avg : D)
      → IsIn es core avg
      → IsIn (e ∷ es) core avg
  IsIn-later e es core avg (j, h) = (suc j, h)

  -- The first of the least entries, or the start.
  abbrev pick : (D → D → Bool) → List (Entry D) → Entry D → Entry D
  pick lt [] m = m
  pick lt (e ∷ es) m =
      let less = lt e.avg m.avg in
      pick lt es (entry (if less then e.core else m.core) (if less then e.avg else m.avg))

  module _ (lt : D → D → Bool) (finite : D → Bool) (order : IsOrder D lt finite) where
    open order use {irreflexive, asymmetric, negatively_transitive}

    abbrev Finite : Entry D → Type 0
    Finite e = finite e.avg ≡ true

    record Picked (es : List (Entry D)) (m r : Entry D) : Type ℓ where
      number : Finite r
      below : lt m.avg r.avg ≡ false
      least : All (λ e. lt e.avg r.avg ≡ false) es
      found : (r ≡ m) ⊎ IsIn es r.core r.avg

    pick-Picked :
        (es : List (Entry D)) (m : Entry D) → Finite m → All Finite es → Picked es m (pick lt es m)
    pick-Picked [] m fm fes = record {
      number = fm;
      below = irreflexive m.avg fm;
      least = tt;
      found = inl refl;
    }
    pick-Picked (e ∷ es) m fm (fe, fes) = elim (Bool-cases (lt e.avg m.avg)) [
      | inl h ↦ rw h (
          let p = pick-Picked es e fe fes in
          let r = pick lt es e in
          record {
            number = p.number;
            below =
                negatively_transitive r.avg e.avg m.avg p.number fe fm p.below
                  (asymmetric e.avg m.avg h);
            least = (p.below, p.least);
            found = elim p.found [
              | inl same ↦ inr (0, ap some (sym same))
              | inr old ↦ inr (IsIn-later e es r.core r.avg old)
            ];
          })
      | inr h ↦ rw h (
          let p = pick-Picked es m fm fes in
          let r = pick lt es m in
          record {
            number = p.number;
            below = p.below;
            least = (negatively_transitive r.avg m.avg e.avg p.number fm fe p.below h, p.least);
            found = elim p.found [
              | inl same ↦ inl same
              | inr old ↦ inr (IsIn-later e es r.core r.avg old)
            ];
          })
    ]

true_ne_false : true ≢ false
true_ne_false e = cc

-- The finite doubles are ordered, with 0 and DBL_MAX among them.
pub record IsComparable {ℓ} (D : Type ℓ) ⦃d : Double D⦄ : Type ℓ where
  pub ascending : IsOrder D d.lt d.is_finite
  pub descending : IsOrder D (λ a b. d.lt b a) d.is_finite
  pub zero_finite : d.is_finite (d.of_ticks 0) ≡ true
  pub max_finite : d.is_finite d.dbl_max ≡ true

module _ {ℓ} {D : Type ℓ} ⦃d : Double D⦄ where
  abbrev entry_of : ℕ → Option (AbsDeviation D) → List (Entry D) → List (Entry D)
  entry_of core none es = es
  entry_of core (some stats) es = entry core stats.avg ∷ es

  -- The cores that have statistics, from `core_idx` on, with the average in the first valid store.
  abbrev pub entries : (ℕ → ℕ) → (ℕ → CoreSummary D) → ℕ → ℕ → List (Entry D)
  entries test_cores_array summaries zero core_idx = []
  entries test_cores_array summaries (suc left) core_idx =
      entry_of (test_cores_array core_idx) (first_valid (summaries core_idx) pfd_num_stores 0)
        (entries test_cores_array summaries left (core_idx + 1))

  abbrev pub sum_from : D → List (Entry D) → D
  sum_from s [] = s
  sum_from s (e ∷ es) = sum_from (d.plus s e.avg) es

  -- The totals over the entries.
  abbrev over_entries : List (Entry D) → Totals D → Totals D
  over_entries es t =
      let low = pick d.lt es (entry t.min_core t.min_avg) in
      let high = pick (λ a b. d.lt b a) es (entry t.max_core t.max_avg) in
      record {
        min_avg = low.avg;
        max_avg = high.avg;
        sum_avg = sum_from t.sum_avg es;
        min_core = low.core;
        max_core = high.core;
        cores_with_stats = t.cores_with_stats + length es;
      }

  over_entries-cons :
      (core : ℕ) (avg : D) (es : List (Entry D)) (t : Totals D)
      → t.cores_with_stats + suc (length es) < 2 ^ 32
      → over_entries es (add_core core avg t) ≡ over_entries (entry core avg ∷ es) t
  unfolding add_core
  over_entries-cons core avg es t few =
      let count : u32 (t.cores_with_stats + 1) + length es ≡ t.cores_with_stats + suc (length es) =
        omega arith in
      ap (λ n. record (over_entries (entry core avg ∷ es) t) { cores_with_stats = n }) count

  entry_of-le :
      (core : ℕ) (o : Option (AbsDeviation D)) (es : List (Entry D)) {left : ℕ}
      → length es ≤ left
      → length (entry_of core o es) ≤ suc left
  entry_of-le core none es h = omega arith
  entry_of-le core (some stats) es h = omega arith

  entries-le :
      (array : ℕ → ℕ) (summaries : ℕ → CoreSummary D) (left idx : ℕ)
      → length (entries array summaries left idx) ≤ left
  entries-le array summaries zero idx = omega arith
  entries-le array summaries (suc left) idx =
      entry_of-le (array idx) (first_valid (summaries idx) pfd_num_stores 0) _
        (entries-le array summaries left (idx + 1))

  entry_of-over :
      (core left : ℕ) (o : Option (AbsDeviation D)) (es : List (Entry D)) (t : Totals D)
      (f : Totals D → Totals D)
      → ((u : Totals D) → u.cores_with_stats + left < 2 ^ 32 → f u ≡ over_entries es u)
      → length es ≤ left
      → t.cores_with_stats + suc left < 2 ^ 32
      → f (add_stats core o t) ≡ over_entries (entry_of core o es) t
  unfolding add_core
  entry_of-over core left none es t f h le few = h t (omega arith)
  entry_of-over core left (some stats) es t f h le few =
      h (add_core core stats.avg t) (omega arith)
      ∙ over_entries-cons core stats.avg es t (omega arith)

  add_cores-entries :
      (array : ℕ → ℕ) (summaries : ℕ → CoreSummary D) (left idx : ℕ) (t : Totals D)
      → t.cores_with_stats + left < 2 ^ 32
      → add_cores array summaries left idx t ≡ over_entries (entries array summaries left idx) t
  unfolding add_cores
  add_cores-entries array summaries zero idx t few =
      ap (λ n. record t { cores_with_stats = n }) (omega arith)
  add_cores-entries array summaries (suc left) idx t few =
      entry_of-over (array idx) left (first_valid (summaries idx) pfd_num_stores 0)
        (entries array summaries left (idx + 1)) t (add_cores array summaries left (idx + 1))
        (add_cores-entries array summaries left (idx + 1))
        (entries-le array summaries left (idx + 1)) few

  abbrev pub Average : Entry D → Type 0
  Average e = (d.is_finite e.avg ≡ true) × (d.lt e.avg d.dbl_max ≡ true)

  -- What the summary shows of the entries: how many there are goes into the mean; the least and the
  -- greatest average with their cores.
  pub record Summarises (es : List (Entry D)) (r : Report D) : Type ℓ where
    pub low : Entry D
    pub high : Entry D
    pub shown :
        r
        ≡ summary_of
            (d.over (sum_from zero_double es) (d.of_ticks (length es)))
            low.avg
            low.core
            high.avg
            high.core
    pub bounds : All (λ e. (d.lt e.avg low.avg ≡ false) × (d.lt high.avg e.avg ≡ false)) es
    pub low_found : IsIn es low.core low.avg
    pub high_found : (high ≡ entry 0 zero_double) ⊎ IsIn es high.core high.avg

  abbrev pub Shows : List (Entry D) → Report D → Type ℓ
  Shows [] r = r ≡ no_statistics
  Shows (e ∷ es) r = Summarises (e ∷ es) r

  zip_bounds :
      (es : List (Entry D)) (low high : D)
      → All (λ e. d.lt e.avg low ≡ false) es
      → All (λ e. d.lt high e.avg ≡ false) es
      → All (λ e. (d.lt e.avg low ≡ false) × (d.lt high e.avg ≡ false)) es
  zip_bounds [] low high h h' = tt
  zip_bounds (e ∷ es) low high (a, h) (b, h') = ((a, b), zip_bounds es low high h h')

  All-finite : (es : List (Entry D)) → All Average es → All (λ e. d.is_finite e.avg ≡ true) es
  All-finite [] h = tt
  All-finite (e ∷ es) (a, h) = (a.0, All-finite es h)

  module _ (order : IsComparable D) where
    open order use {ascending, descending, zero_finite, max_finite}

    reported-Shows :
        (es : List (Entry D))
        → All Average es
        → Shows es (reported (over_entries es initial_totals))
    unfolding reported
    reported-Shows [] h = refl
    reported-Shows (e ∷ es) (a, h) =
        let positive : ltb 0 (0 + suc (length es)) ≡ true = ground arith in
        let count : 0 + suc (length es) ≡ suc (length es) = omega arith in
        let p =
          pick-Picked d.lt d.is_finite ascending (e ∷ es) (entry 0 d.dbl_max) max_finite
            (a.0, All-finite es h) in
        let q =
          pick-Picked (λ a b. d.lt b a) d.is_finite descending (e ∷ es) (entry 0 zero_double)
            zero_finite (a.0, All-finite es h) in
        record {
          low = pick d.lt (e ∷ es) (entry 0 d.dbl_max);
          high = pick (λ a b. d.lt b a) (e ∷ es) (entry 0 zero_double);
          shown = rw (positive, count) refl;
          bounds = zip_bounds (e ∷ es) _ _ p.least q.least;
          low_found = elim p.found [
            | inl same ↦ absurd (true_ne_false (sym a.1 ∙ rw same at (p.least.0)))
            | inr found ↦ found
          ];
          high_found = q.found;
        }

    -- For fewer than 2^32 cores whose averages are finite and below DBL_MAX: the summary is that there
    -- are no statistics when no core has any, and otherwise shows the sum of the averages of the
    -- cores that have, divided by their number, the least of these averages with a core that has it,
    -- and the greatest, with a core that has it, or 0 with core 0 when no average is above 0.
    pub cross_core_summary-Shows :
        (test_cores : ℕ) (test_cores_array : ℕ → ℕ) (summaries : ℕ → CoreSummary D)
        → test_cores < 2 ^ 32
        → All Average (entries test_cores_array summaries test_cores 0)
        → Shows
            (entries test_cores_array summaries test_cores 0)
            (cross_core_summary test_cores test_cores_array summaries)
    unfolding cross_core_summary
    cross_core_summary-Shows n array summaries few finite =
        subst (λ t. Shows (entries array summaries n 0) (reported t))
          (sym (add_cores-entries array summaries n 0 initial_totals (omega arith)))
          (reported-Shows (entries array summaries n 0) finite)

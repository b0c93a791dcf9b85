-- ===== src/Statistics/Shared.antt =====
-- Every thread gets the same correction, and it is not 0.
use altered_ccbench_fork.Common.{
  ℕ, ◌+◌, ◌-◌, ◌*◌, ◌/◌, ◌%◌, ◌<◌, ◌≡◌, ◌∙◌, ◌⊎◌, inl, inr, refl, sym, ap, subst, arith, true,
  false, not, ◌||◌, List, [], ◌∷◌, some, length, All, if◌then◌else◌, ◌==◌, Bool-cases, update,
  update_self, update_ne, ℕ_discrete,
}
use altered_ccbench_fork.Statistics.Double.{Double}
use altered_ccbench_fork.Statistics.Median.{
  ticks_compare, qsort, non_zero, mean, middle_double, median_non_zero_ticks,
}
use altered_ccbench_fork.Statistics.Order.{length-qsort, get-some}
use altered_ccbench_fork.Statistics.Correction.{
  Global, ThreadLocal, allocate_thread_local_store, deltas, sample_count, rounded,
  estimate_median_rdtsc_delta, conservative, fallback, settle, pfd_store_init, init_threads,
  measure_minimum_tick_delta,
}

abbrev pub IsReady : ℕ → Global → Type 0
IsReady num_entries g = (0 < g.global_pfd_correction) × (g.global_pfd_num_entries ≡ num_entries)

stale-IsReady :
    (num_entries : ℕ) (g : Global)
    → (g.global_pfd_correction == 0 || not (g.global_pfd_num_entries == num_entries)) ≡ true
    → ¬ IsReady num_entries g
stale-IsReady num_entries g stale (more, same) = ground (arith, stale, more, same)

not_stale :
    (num_entries : ℕ) (g : Global)
    → (g.global_pfd_correction == 0 || not (g.global_pfd_num_entries == num_entries)) ≡ false
    → IsReady num_entries g
not_stale num_entries g ready = ground (arith, ready)

chosen-pos : (c m k : ℕ) → 0 < k → 0 < (if c == 0 then (if m == 0 then k else m) else c)
chosen-pos c m k more = ground (arith, more)

at_least_one : (n : ℕ) → 0 < (if n == 0 then 1 else n)
at_least_one n = ground arith

not_zero : (n : ℕ) → 0 < n → (n == 0) ≡ false
not_zero n more = ground arith

kept-pos : (c : ℕ) → 0 < c → (if c == 0 then 1 else c) ≡ c
kept-pos c more = ground arith

abbrev pub HasCorrection : Global → (ℕ → ThreadLocal) → ℕ → Type 0
HasCorrection g threads rank = (threads rank).pfd_correction ≡ g.global_pfd_correction

updated_self :
    (g : Global) (threads threads' : ℕ → ThreadLocal) (rank : ℕ) (t : ThreadLocal)
    → t.pfd_correction ≡ g.global_pfd_correction
    → (threads' rank ≡ update threads rank t rank) ⊎ HasCorrection g threads' rank
    → HasCorrection g threads' rank
updated_self g threads threads' rank t same (inl e) =
    ap (λ x. x.pfd_correction) (e ∙ update_self threads rank t) ∙ same
updated_self g threads threads' rank t same (inr h) = h

updated_other :
    (g : Global) (threads threads' : ℕ → ThreadLocal) (rank r : ℕ) (t : ThreadLocal)
    → t.pfd_correction ≡ g.global_pfd_correction
    → (threads' r ≡ update threads rank t r) ⊎ HasCorrection g threads' r
    → (threads' r ≡ threads r) ⊎ HasCorrection g threads' r
updated_other g threads threads' rank r t same (inr h) = inr h
updated_other g threads threads' rank r t same (inl e) = elim (ℕ_discrete r rank) [
  | yes eq ↦ inr (
      ap (λ x. x.pfd_correction)
        (e ∙ subst (λ k. update threads rank t k ≡ t) (sym eq) (update_self threads rank t))
      ∙ same)
  | no ne ↦ inl (e ∙ update_ne threads rank t r ne)
]

module _ {ℓ} (D : Type ℓ) ⦃d : Double D⦄ where
  middle-some : (s : List ℕ) → 0 < length s → (x : D) × (middle_double {D = D} s ≡ some x)
  unfolding middle_double
  middle-some s at_least =
      let (upper, e) = get-some s (length s / 2) (omega (arith, at_least)) in
      let (lower, e') = get-some s (length s / 2 - 1) (omega (arith, at_least)) in
      elim (Bool-cases (length s % 2 == 0)) [
        | inl even ↦ (mean lower upper, rw (even, e, e') refl)
        | inr odd ↦ (d.of_ticks upper, rw (odd, e) refl)
      ]

  median-some : (ds : List ℕ) → (x : D) × (median_non_zero_ticks {D = D} ds ≡ some x)
  unfolding median_non_zero_ticks
  median-some ds = elim (Bool-cases (length ds == 0)) [
    | inl empty ↦ (d.nan, rw empty refl)
    | inr filled ↦ elim (Bool-cases (length (non_zero ds) == 0)) [
      | inl empty ↦ (d.nan, rw (filled, empty) refl)
      | inr some_left ↦
          let (x, e) =
            middle-some (qsort ticks_compare (non_zero ds))
              (ground (arith, some_left, length-qsort (non_zero ds))) in
          (x, rw (filled, some_left) e)
    ]
  ]

  estimate-some :
      (ticks : ℕ → ℕ) (readings num_entries : ℕ)
      → (r : ℕ) × (estimate_median_rdtsc_delta D ticks readings num_entries ≡ some r)
  unfolding estimate_median_rdtsc_delta
  estimate-some ticks readings num_entries = elim (Bool-cases (num_entries == 0)) [
    | inl nothing ↦ (0, rw nothing refl)
    | inr filled ↦
        let (x, e) = median-some (deltas ticks (sample_count num_entries) readings) in
        (rounded D x, rw (filled, e) refl)
  ]

  fallback-pos :
      (ticks : ℕ → ℕ) (readings correction : ℕ) → 0 < fallback D ticks readings correction
  unfolding fallback
  fallback-pos ticks readings correction =
      chosen-pos correction (measure_minimum_tick_delta ticks readings 512) (conservative D)
        (at_least_one (d.to_ticks (d.plus (d.of_ticks 32) d.half)))

  settle-IsReady :
      (ticks : ℕ → ℕ) (num_entries : ℕ) (g : Global)
      → (g' : Global) × (settle D ticks num_entries g ≡ some g')
        × IsReady num_entries g'
        × (IsReady num_entries g → g' ≡ g)
  unfolding settle
  settle-IsReady ticks num_entries g =
      elim (Bool-cases
        (g.global_pfd_correction == 0 || not (g.global_pfd_num_entries == num_entries))) [
          | inl stale ↦
              let (r, e) = estimate-some ticks g.readings num_entries in
              let readings = g.readings + 2 * sample_count num_entries in
              let g' : Global = record {
                global_pfd_correction = fallback D ticks readings r;
                global_pfd_num_entries = num_entries;
                readings = if r == 0 then readings + 2 * 512 else readings;
              } in
              let new = fallback-pos ticks readings r in
              (
                g',
                rw (stale, e) refl,
                (new, refl),
                λ ready. absurd (stale-IsReady num_entries g stale ready),
              )
          | inr ready ↦ (g, rw ready refl, not_stale num_entries g ready, λ h. refl)
        ]

  pfd_store_init-IsReady :
      (ticks : ℕ → ℕ) (num_entries : ℕ) (g : Global) (t : ThreadLocal)
      → 0 < num_entries
      → (g' : Global) × (t' : ThreadLocal) × (pfd_store_init D ticks num_entries g t
          ≡ some (g', t'))
        × IsReady num_entries g'
        × (IsReady num_entries g → g' ≡ g)
        × (t'.pfd_correction ≡ g'.global_pfd_correction)
  unfolding pfd_store_init
  pfd_store_init-IsReady ticks num_entries g t more =
      let (g', e, ready, kept) = settle-IsReady ticks num_entries g in
      let t' : ThreadLocal = record {
        store_entries = allocate_thread_local_store num_entries t.store_entries;
        pfd_correction = if g'.global_pfd_correction == 0 then 1 else g'.global_pfd_correction;
      } in
      (
        g',
        t',
        rw (not_zero num_entries more, e) refl,
        ready,
        kept,
        kept-pos g'.global_pfd_correction ready.0,
      )

  from_ready :
      (ticks : ℕ → ℕ) (num_entries : ℕ) (ranks : List ℕ) (g : Global) (threads : ℕ → ThreadLocal)
      → 0 < num_entries
      → IsReady num_entries g
      → (threads' : ℕ → ThreadLocal) × (init_threads D ticks num_entries ranks g threads
          ≡ some (g, threads'))
        × All (HasCorrection g threads') ranks
        × ((rank : ℕ) → (threads' rank ≡ threads rank) ⊎ HasCorrection g threads' rank)
  unfolding init_threads
  from_ready ticks num_entries [] g threads more ready = (threads, refl, tt, λ rank. inl refl)
  from_ready ticks num_entries (rank ∷ ranks) g threads more ready =
      let (g', t, e, ready', kept, same) =
        pfd_store_init-IsReady ticks num_entries g (threads rank) more in
      let e' : g' ≡ g = kept ready in
      let (threads', e'', all, other) =
        from_ready ticks num_entries ranks g (update threads rank t) more ready in
      let own = same ∙ ap (λ x. x.global_pfd_correction) e' in
      (
        threads',
        rw (e, e') e'',
        (updated_self g threads threads' rank t own (other rank), all),
        λ r. updated_other g threads threads' rank r t own (other r),
      )

-- A list of threads that call `pfd_store_init` with the same number of entries, which is not 0, in any
-- order and from any state: every call returns, every thread ends with the correction that the
-- shared state ends with, and it is not 0; it is the one that was there before, when that was set for
-- the same number of entries.
pub init_threads-shared {ℓ} :
    (D : Type ℓ) ⦃d : Double D⦄ (ticks : ℕ → ℕ) (num_entries rank : ℕ) (ranks : List ℕ) (g : Global)
    (threads : ℕ → ThreadLocal)
    → 0 < num_entries
    → (g' : Global) × (threads' : ℕ → ThreadLocal) × (init_threads D ticks num_entries
          (rank ∷ ranks)
          g
          threads
        ≡ some (g', threads'))
      × (0 < g'.global_pfd_correction)
      × All (HasCorrection g' threads') (rank ∷ ranks)
      × (IsReady num_entries g → g' ≡ g)
unfolding init_threads
init_threads-shared D ticks num_entries rank ranks g threads more =
    let (g', t, e, ready, kept, same) =
      pfd_store_init-IsReady D ticks num_entries g (threads rank) more in
    let (threads', e', all, other) =
      from_ready D ticks num_entries ranks g' (update threads rank t) more ready in
    (
      g',
      threads',
      rw e e',
      ready.0,
      (updated_self g' threads threads' rank t same (other rank), all),
      kept,
    )

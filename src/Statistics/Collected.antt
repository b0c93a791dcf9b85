-- ===== src/Statistics/Collected.antt =====
-- The summary over the cores, of what the threads collect in their turns.
use altered_ccbench_fork.Common.{
  ℕ, zero, suc, ◌+◌, ◌^◌, ◌<◌, ◌≤◌, ◌≡◌, ◌∙◌, inl, inr, ap, refl, arith, Bool-cases, List, [], ◌∷◌,
  Option, none, some, if◌then◌else◌, ℕ_discrete, subst, All,
}
use altered_ccbench_fork.Machine.{Config}
use altered_ccbench_fork.Worker.Event
use altered_ccbench_fork.Worker.Program.{collected}
use altered_ccbench_fork.Statistics.Double.{Double}
use altered_ccbench_fork.Statistics.Deviation.{AbsDeviation, get_abs_deviation}
use altered_ccbench_fork.Statistics.Summary.{
  CoreSummary, Collection, take, turn, all_turns, first_valid, pfd_num_stores, cross_core_summary,
}
use altered_ccbench_fork.Statistics.Cores.{
  Entry, entry, entries, Average, Shows, IsComparable, cross_core_summary-Shows,
}
use altered_ccbench_fork.Statistics.Turns.{collects, own_stats, Left, turn-Left}

module _ {ℓ} {D : Type ℓ} ⦃d : Double D⦄ (c : Config) (num_print : ℕ) where
  -- The average of each rank that collects, from rank `id` on, with its core.
  abbrev pub averages : Event.Event → (ℕ → ℕ) → (ℕ → ℕ → List ℕ) → ℕ → ℕ → List (Entry D)
  averages ev test_cores_array pfd_store zero id = []
  averages ev test_cores_array pfd_store (suc left) id =
      let rest = averages ev test_cores_array pfd_store left (id + 1) in
      if collects ev id
      then entry (test_cores_array id) (own_stats c pfd_store id).avg ∷ rest
      else rest

  abbrev expected : Event.Event → (ℕ → ℕ → List ℕ) → ℕ → Option (AbsDeviation D)
  expected ev pfd_store j = if collects ev j then some (own_stats c pfd_store j) else none

  -- The statistics in the summaries of the ranks below `high`.
  Holds : Event.Event → (ℕ → ℕ → List ℕ) → ℕ → (ℕ → CoreSummary D) → Type ℓ
  Holds ev pfd_store high cores =
      (j : ℕ) → j < high → first_valid (cores j) pfd_num_stores 0 ≡ expected ev pfd_store j

  Holds-next :
      (ev : Event.Event) (id : ℕ) (pfd_store : ℕ → ℕ → List ℕ) (cores : ℕ → CoreSummary D)
      (s t : Collection D)
      → s.pfd_store id ≡ pfd_store id
      → Holds ev pfd_store id cores
      → (left : Left c num_print id cores s.pfd_store (expected ev s.pfd_store id) t)
      → Holds ev pfd_store (id + 1) left.summaries
  unfolding Holds
  Holds-next ev id pfd_store cores s t st old left j lt = elim (ℕ_discrete j id) [
    | yes h ↦ rw h (
        left.own
        ∙ ap
            (λ (f : ℕ → List ℕ).
              if collects ev id then some (get_abs_deviation (take (f 0) c.test_reps)).0 else none)
            st)
    | no ne ↦
        ap (λ core. first_valid core pfd_num_stores 0) (left.other_summaries j ne)
        ∙ old j (omega arith)
  ]

  all_turns-Holds :
      (ev : Event.Event) (left id : ℕ) (pfd_store : ℕ → ℕ → List ℕ) (cores : ℕ → CoreSummary D)
      (s : Collection D)
      → id + left ≤ c.test_cores
      → s.core_summaries ≡ some cores
      → ((j : ℕ) → id ≤ j → s.pfd_store j ≡ pfd_store j)
      → ((j : ℕ) → id ≤ j → first_valid (cores j) pfd_num_stores 0 ≡ none)
      → Holds ev pfd_store id cores
      → (cores' : ℕ → CoreSummary D) × ((all_turns c ev num_print left id s).core_summaries
          ≡ some cores')
        × Holds ev pfd_store (id + left) cores'
  unfolding all_turns
  all_turns-Holds ev zero id pfd_store cores s le e st fresh old =
      (cores, e, subst (λ k. Holds ev pfd_store k cores) (omega arith) old)
  all_turns-Holds ev (suc left) id pfd_store cores s le e st fresh old =
      let t = turn-Left c num_print id (omega arith) cores s e ev (fresh id (omega arith)) in
      let after = turn c id id num_print (collected c id ev) s in
      let (cores', e', h) =
        all_turns-Holds ev left (id + 1) pfd_store t.summaries after (omega arith) t.shared
          (λ j lt. t.other_stores j (omega arith) ∙ st j (omega arith))
          (λ j lt.
            ap (λ core. first_valid core pfd_num_stores 0) (t.other_summaries j (omega arith))
            ∙ fresh j (omega arith))
          (Holds-next ev id pfd_store cores s after (st id (omega arith)) old t) in
      (cores', e', subst (λ k. Holds ev pfd_store k cores') (omega arith) h)

  entries-averages :
      (ev : Event.Event) (array : ℕ → ℕ) (pfd_store : ℕ → ℕ → List ℕ) (cores : ℕ → CoreSummary D)
      (left id : ℕ)
      → Holds ev pfd_store (id + left) cores
      → entries array cores left id ≡ averages ev array pfd_store left id
  unfolding Holds
  entries-averages ev array pfd_store cores zero id h = refl
  entries-averages ev array pfd_store cores (suc left) id h =
      let rest =
        entries-averages ev array pfd_store cores left (id + 1) (λ j lt. h j (omega arith)) in
      elim (Bool-cases (collects ev id)) [
        | inl yes_it ↦
            rw (h id (omega arith), yes_it)
              (ap (λ es. entry (array id) (own_stats c pfd_store id).avg ∷ es) rest)
        | inr no_it ↦ rw (h id (omega arith), no_it) rest
      ]

  -- For at most 256 cores, of which no summary is valid at the start: the turns leave a summary
  -- over the cores that is the one of the averages that `get_abs_deviation` finds in the first
  -- `test_reps` samples of store 0 of each thread that collects: of ranks 0 and 1 in
  -- STORE_ON_OWNED_MINE and STORE_ON_OWNED, of rank 0 in LOAD_FROM_L1, of all in the other tests. It
  -- shows their mean, the least and the greatest, when these averages are finite and below DBL_MAX.
  pub all_turns-Shows :
      (ev : Event.Event) (test_cores_array : ℕ → ℕ) (cores : ℕ → CoreSummary D) (s : Collection D)
      → IsComparable D
      → c.test_cores ≤ 2 ^ 8
      → s.core_summaries ≡ some cores
      → ((j : ℕ) → first_valid (cores j) pfd_num_stores 0 ≡ none)
      → All Average (averages ev test_cores_array s.pfd_store c.test_cores 0)
      → (cores' : ℕ → CoreSummary D) × ((all_turns c ev num_print c.test_cores 0 s).core_summaries
          ≡ some cores')
        × Shows
            (averages ev test_cores_array s.pfd_store c.test_cores 0)
            (cross_core_summary c.test_cores test_cores_array cores')
  unfolding Holds
  all_turns-Shows ev array cores s order few e fresh finite =
      let (cores', e', h) =
        all_turns-Holds ev c.test_cores 0 s.pfd_store cores s (omega arith) e (λ j le. refl)
          (λ j le. fresh j) (λ j lt. absurd (omega arith)) in
      let same : entries array cores' c.test_cores 0
          ≡ averages ev array s.pfd_store c.test_cores 0 =
        entries-averages ev array s.pfd_store cores' c.test_cores 0 h in
      (
        cores',
        e',
        subst (λ es. Shows es (cross_core_summary c.test_cores array cores')) same
            (cross_core_summary-Shows order c.test_cores array cores' (omega (arith, few))
              (rw same finite)),
      )

-- ===== src/Statistics/Turns.antt =====
-- What the threads leave in `core_summaries`, one turn after the other.
use altered_ccbench_fork.Common.{
  ℕ, ◌<◌, ◌≡◌, ◌≢◌, ◌∙◌, ◌⊎◌, inl, inr, ap, refl, arith, Bool, true, Bool-cases, List, [], ◌∷◌,
  Option, none, some, if◌then◌else◌, ltb, ◌==◌, update, update_self, update_ne, lt→ltb,
}
use altered_ccbench_fork.Machine.{Config}
use altered_ccbench_fork.Worker.Event
use altered_ccbench_fork.Worker.Program.{Action, collect, collected}
use altered_ccbench_fork.Statistics.Double.{Double}
use altered_ccbench_fork.Statistics.Deviation.{AbsDeviation, get_abs_deviation}
use altered_ccbench_fork.Statistics.Summary.{
  CoreSummary, Collection, core_with, take, collect_core_stats, turn, first_valid, pfd_num_stores,
  recorded, pfd_collect_abs_deviation,
}

-- The ranks that collect statistics.
abbrev pub collects : Event.Event → ℕ → Bool
collects Event.store_on_owned_mine id = ltb id 2
collects Event.store_on_owned id = ltb id 2
collects Event.load_from_l1 id = ltb id 1
collects _ id = true

-- The stores that a rank that collects collects behind store 0.
abbrev behind : Event.Event → ℕ → List Action
behind Event.store_on_owned_mine id = if id == 1 then collect 1 ∷ [] else []
behind Event.store_on_owned id = if id == 1 then collect 1 ∷ [] else []
behind _ id = []

collected-collects :
    (c : Config) (id : ℕ) (e : Event.Event)
    → id < c.test_cores
    → collected c id e ≡ (if collects e id then collect 0 ∷ behind e id else [])
unfolding collected
collected-collects c id e lt =
    elim e as (λ k. collected c id k ≡ (if collects k id then collect 0 ∷ behind k id else [])) [
      | Event.load_from_mem_size ↦ ground arith
      | _ ↦ refl
    ]

one_or_none :
    (id : ℕ)
    → ((if id == 1 then collect 1 ∷ [] else []) ≡ [])
      ⊎ ((if id == 1 then collect 1 ∷ [] else []) ≡ collect 1 ∷ [])
one_or_none id = elim (Bool-cases (id == 1)) [ inl e ↦ rw e (inr refl) | inr e ↦ rw e (inl refl) ]

behind-cases : (e : Event.Event) (id : ℕ) → (behind e id ≡ []) ⊎ (behind e id ≡ collect 1 ∷ [])
behind-cases e id = elim e as (λ k. (behind k id ≡ []) ⊎ (behind k id ≡ collect 1 ∷ [])) [
  | Event.store_on_owned_mine ↦ one_or_none id
  | Event.store_on_owned ↦ one_or_none id
  | _ ↦ inl refl
]

-- The statistics over the first `test_reps` samples of store 0.
abbrev pub own_stats {ℓ} :
    {D : Type ℓ} ⦃d : Double D⦄ → Config → (ℕ → ℕ → List ℕ) → ℕ → AbsDeviation D
own_stats ⦃d⦄ c pfd_store id = (get_abs_deviation (take (pfd_store id 0) c.test_reps)).0

module _ {ℓ} {D : Type ℓ} ⦃d : Double D⦄ (c : Config) (num_print : ℕ) where
  -- What rank `id` leaves of a state with the summaries `cores`, of which its own has the statistics
  -- `o` in the first valid store.
  pub record Left (id : ℕ) (cores : ℕ → CoreSummary D) (pfd_store : ℕ → ℕ → List ℕ)
      (o : Option (AbsDeviation D)) (s : Collection D) : Type ℓ where
    pub summaries : ℕ → CoreSummary D
    pub shared : s.core_summaries ≡ some summaries
    pub own : first_valid (summaries id) pfd_num_stores 0 ≡ o
    pub other_summaries : (j : ℕ) → j ≢ id → summaries j ≡ cores j
    pub other_stores : (j : ℕ) → j ≢ id → s.pfd_store j ≡ pfd_store j

  module _ (id : ℕ) (lt : id < c.test_cores) (cores : ℕ → CoreSummary D) where
    with_store : ℕ → AbsDeviation D → ℕ → CoreSummary D
    with_store store stats = update cores id (core_with (cores id) store stats)

    recorded-with :
        (store : ℕ) (stats : AbsDeviation D)
        → store < 2
        → recorded c.test_cores id store stats cores ≡ with_store store stats
    unfolding recorded with_store
    recorded-with store stats low = rw (lt→ltb id c.test_cores lt, lt→ltb store 2 low) refl

    collect_core_stats-shared :
        (store : ℕ) (s : Collection D)
        → store < 2
        → s.core_summaries ≡ some cores
        → ((collect_core_stats c.test_cores id id store c.test_reps num_print s).core_summaries
            ≡ some
                (with_store store (get_abs_deviation (take (s.pfd_store id store) c.test_reps)).0))
          × ((j : ℕ)
              → j ≢ id
              → (collect_core_stats c.test_cores id id store c.test_reps num_print s).pfd_store j
                ≡ s.pfd_store j)
    unfolding collect_core_stats pfd_collect_abs_deviation
    collect_core_stats-shared store s low e =
        (rw e (ap some (recorded-with store _ low)), λ j ne. update_ne s.pfd_store id _ j ne)

  module _ (id : ℕ) (lt : id < c.test_cores) (cores : ℕ → CoreSummary D) (s : Collection D)
      (e : s.core_summaries ≡ some cores) where
    abbrev stats : AbsDeviation D
    stats = own_stats c s.pfd_store id

    -- After store 0.
    abbrev once : Collection D
    once = collect_core_stats c.test_cores id id 0 c.test_reps num_print s

    abbrev cores_once : ℕ → CoreSummary D
    cores_once = with_store id lt cores 0 stats

    -- After both.
    abbrev twice : Collection D
    twice = collect_core_stats c.test_cores id id 1 c.test_reps num_print once

    own_once : cores_once id ≡ core_with (cores id) 0 stats
    unfolding with_store
    own_once = update_self cores id _

    once-Left : Left id cores s.pfd_store (some stats) once
    unfolding first_valid with_store
    once-Left =
        let (shared, stores) = collect_core_stats-shared id lt cores 0 s (omega arith) e in
        record {
          summaries = cores_once;
          shared = shared;
          own = rw own_once refl;
          other_summaries = λ j ne. update_ne cores id _ j ne;
          other_stores = stores;
        }

    twice-Left : Left id cores s.pfd_store (some stats) twice
    unfolding first_valid with_store
    twice-Left =
        let (shared0, stores0) = collect_core_stats-shared id lt cores 0 s (omega arith) e in
        let (shared, stores) =
          collect_core_stats-shared id lt cores_once 1 once (omega arith) shared0 in
        record {
          summaries =
              with_store id lt cores_once 1
                (get_abs_deviation (take (once.pfd_store id 1) c.test_reps)).0;
          shared = shared;
          own =
              rw
                (
                  update_self cores_once id (
                      core_with (cores_once id) 1
                        (get_abs_deviation (take (once.pfd_store id 1) c.test_reps)).0),
                  own_once,
                )
                refl;
          other_summaries = λ j ne. update_ne cores_once id _ j ne ∙ update_ne cores id _ j ne;
          other_stores = λ j ne. stores j ne ∙ stores0 j ne;
        }

    pub turn-Left :
        (ev : Event.Event)
        → first_valid (cores id) pfd_num_stores 0 ≡ none
        → Left id cores s.pfd_store
            (if collects ev id then some stats else none)
            (turn c id id num_print (collected c id ev) s)
    unfolding turn
    turn-Left ev fresh = rw (collected-collects c id ev lt) (elim (Bool-cases (collects ev id)) [
      | inl h ↦ rw h (elim (behind-cases ev id) [
        | inl none_left ↦ rw none_left once-Left
        | inr one_left ↦ rw one_left twice-Left
      ])
      | inr h ↦ rw h (record {
        summaries = cores;
        shared = e;
        own = fresh;
        other_summaries = λ j ne. refl;
        other_stores = λ j ne. refl;
      })
    ])

-- ===== src/Setup/Threads.antt =====
-- The end of `main` in src/ccbench.c and `worker_trampoline`: the threads of the ranks from 1 on, the
-- worker of rank 0 in the thread of `main`, and the joins. What `pthread_create` and `pthread_join`
-- return for the thread of a rank, and whether `calloc` gives memory, are parameters.
use altered_ccbench_fork.Common.{
  ℕ, zero, suc, ◌+◌, ◌%◌, ◌^◌, ◌≤◌, ◌<◌, ◌≡◌, ◌≢◌, ◌⊎◌, inl, inr, ◌∙◌, ap, refl, arith, Bool, true,
  false, if◌then◌else◌, ltb, ◌==◌, ℕ_discrete, List, [], ◌∷◌, ◌++◌,
}
use altered_ccbench_fork.Machine.{Config}
use altered_ccbench_fork.Worker.Event.{Event}
use altered_ccbench_fork.Worker.Program.{Action, run_worker}

-- The pointer holds the rank.
unfoldable pub worker_trampoline : Config → Event → ℕ → List Action
worker_trampoline c e arg = run_worker c e (arg % 2 ^ 32)

-- What `main` has done: a thread is created for a program, the worker of rank 0 has run, the thread
-- of a rank is joined, the process ends with a status.
pub data Deed : Type 0 where
  created : ℕ → List Action → Deed
  worked : List Action → Deed
  joined : ℕ → Deed
  ended : ℕ → Deed

module _ (c : Config) (e : Event) (create join : ℕ → ℕ) where
  -- `for (rank = 1; rank < test_cores; rank++) pthread_create(…)`, with `left` rounds to go, and
  -- then `after`.
  unfoldable pub create_threads : ℕ → ℕ → List Deed → List Deed
  unfolding worker_trampoline
  create_threads zero rank after = after
  create_threads (suc left) rank after =
      let others = create_threads left (rank + 1) after in
      if create rank == 0 then created rank (worker_trampoline c e rank) ∷ others else ended 1 ∷ []

  -- `for (rank = 1; rank < test_cores; rank++) pthread_join(…)`, and then `return 0`.
  unfoldable pub join_threads : ℕ → ℕ → List Deed
  join_threads zero rank = ended 0 ∷ []
  join_threads (suc left) rank =
      let others = join_threads left (rank + 1) in
      if join rank == 0 then joined rank ∷ others else ended 1 ∷ []

  -- From the allocation of the handles on.
  unfoldable pub run_threads : Bool → ℕ → List Deed
  unfolding create_threads join_threads
  run_threads calloc zero = worked (run_worker c e 0) ∷ ended 0 ∷ []
  run_threads calloc (suc others) =
      if ltb 0 others
      then (if calloc
          then create_threads others 1 (worked (run_worker c e 0) ∷ join_threads others 1)
          else ended 1 ∷ [])
      else worked (run_worker c e 0) ∷ ended 0 ∷ []

-- The threads of `count` ranks from `rank` on, created and joined.
abbrev pub all_created : Config → Event → ℕ → ℕ → List Deed
all_created c e zero rank = []
all_created c e (suc count) rank =
    created rank (run_worker c e rank) ∷ all_created c e count (rank + 1)

abbrev pub all_joined : ℕ → ℕ → List Deed
all_joined zero rank = []
all_joined (suc count) rank = joined rank ∷ all_joined count (rank + 1)

-- Of `count` calls from `rank` on all return 0.
abbrev pub Works : (ℕ → ℕ) → ℕ → ℕ → Type 0
Works code rank count = (r : ℕ) → rank ≤ r → r < rank + count → code r ≡ 0

-- The first that does not has `good` before it.
pub record Fails (code : ℕ → ℕ) (rank count good : ℕ) : Type 0 where
  pub among : good < count
  pub until : Works code rank good
  pub bad : code (rank + good) ≢ 0

Works-next :
    (code : ℕ → ℕ) (rank count : ℕ)
    → code rank ≡ 0
    → Works code (rank + 1) count
    → Works code rank (suc count)
Works-next code rank count e h r le lt = elim (ℕ_discrete r rank) [
  | yes same ↦ rw same e
  | no other ↦ h r (omega arith) (omega arith)
]

Fails-next :
    (code : ℕ → ℕ) (rank count good : ℕ)
    → code rank ≡ 0
    → Fails code (rank + 1) count good
    → Fails code rank (suc count) (suc good)
Fails-next code rank count good e f = record {
  among = omega (arith, f.among);
  until = Works-next code rank good e f.until;
  bad = λ h. f.bad (ap code (omega arith) ∙ h);
}

Fails-here : (code : ℕ → ℕ) (rank count : ℕ) → code rank ≢ 0 → Fails code rank (suc count) 0
Fails-here code rank count ne = record {
  among = omega arith;
  until = λ r le lt. absurd (omega arith);
  bad = λ h. ne (ap code (omega arith) ∙ h);
}

==-false : (a b : ℕ) → a ≢ b → (a == b) ≡ false
==-false a b h = ground arith

module _ (c : Config) (e : Event) (create join : ℕ → ℕ) where
  create_threads-cases :
      (count rank : ℕ) (after : List Deed)
      → rank + count ≤ 2 ^ 32
      → (Works create rank count
          × (create_threads c e create join count rank after ≡ all_created c e count rank ++ after))
        ⊎ ((good : ℕ) × (Fails create rank count good)
            × (create_threads c e create join count rank after
                ≡ all_created c e good rank ++ ended 1 ∷ []))
  unfolding create_threads worker_trampoline
  create_threads-cases zero rank after small = inl (λ r le lt. absurd (omega arith), refl)
  create_threads-cases (suc count) rank after small =
      let same : rank % 2 ^ 32 ≡ rank = omega arith in
      elim (ℕ_discrete (create rank) 0) [
        | no bad ↦ inr (0, Fails-here create rank count bad, rw (==-false (create rank) 0 bad) refl)
        | yes good ↦ elim (create_threads-cases count (rank + 1) after (omega arith)) [
          | inl (w, h) ↦ inl (Works-next create rank count good w, rw (good, same, h) refl)
          | inr (n, f, h) ↦
              inr (suc n, Fails-next create rank count n good f, rw (good, same, h) refl)
        ]
      ]

  join_threads-cases :
      (count rank : ℕ)
      → (Works join rank count
          × (join_threads c e create join count rank ≡ all_joined count rank ++ ended 0 ∷ []))
        ⊎ ((good : ℕ) × (Fails join rank count good)
            × (join_threads c e create join count rank ≡ all_joined good rank ++ ended 1 ∷ []))
  unfolding join_threads
  join_threads-cases zero rank = inl (λ r le lt. absurd (omega arith), refl)
  join_threads-cases (suc count) rank = elim (ℕ_discrete (join rank) 0) [
    | no bad ↦ inr (0, Fails-here join rank count bad, rw (==-false (join rank) 0 bad) refl)
    | yes good ↦ elim (join_threads-cases count (rank + 1)) [
      | inl (w, h) ↦ inl (Works-next join rank count good w, rw (good, h) refl)
      | inr (n, f, h) ↦ inr (suc n, Fails-next join rank count n good f, rw (good, h) refl)
    ]
  ]

  -- How the threads of `others` ranks beside rank 0 come out.
  pub data Course (others : ℕ) (deeds : List Deed) : Type 0 where
    complete :
        Works create 1 others
        → Works join 1 others
        → deeds
          ≡ all_created c e others 1
            ++ worked (run_worker c e 0) ∷ (all_joined others 1 ++ ended 0 ∷ [])
        → Course others deeds
    not_created :
        (good : ℕ)
        → Fails create 1 others good
        → deeds ≡ all_created c e good 1 ++ ended 1 ∷ []
        → Course others deeds
    not_joined :
        (good : ℕ)
        → Works create 1 others
        → Fails join 1 others good
        → deeds
          ≡ all_created c e others 1
            ++ worked (run_worker c e 0) ∷ (all_joined good 1 ++ ended 1 ∷ [])
        → Course others deeds

  -- For 1 to 2^32 threads and memory for their handles: when every `pthread_create` and every
  -- `pthread_join` returns 0, every rank runs its worker once, those from 1 on in threads of their
  -- own, in order, before rank 0 runs in the thread of `main`, then they are all joined in order, and
  -- the status is 0. At the first `pthread_create` that fails, the process ends with status 1 before
  -- rank 0 runs and a further thread is created; at the first `pthread_join` that fails, it ends with
  -- status 1 before a further thread is joined.
  pub run_threads-Course :
      (others : ℕ) → others < 2 ^ 32 → Course others (run_threads c e create join true (suc others))
  unfolding run_threads
  run_threads-Course zero small =
      complete (λ r le lt. absurd (omega arith)) (λ r le lt. absurd (omega arith)) refl
  run_threads-Course (suc others) small =
      let more : ltb 0 (suc others) ≡ true = ground arith in
      let after = worked (run_worker c e 0) ∷ join_threads c e create join (suc others) 1 in
      rw more (elim (create_threads-cases (suc others) 1 after (omega arith)) [
        | inr (n, f, h) ↦ not_created n f h
        | inl (w, h) ↦ elim (join_threads-cases (suc others) 1) [
          | inl (w', h') ↦
              complete w w'
                (h ∙ ap (λ ds. all_created c e (suc others) 1 ++ worked (run_worker c e 0) ∷ ds) h')
          | inr (n, f, h') ↦
              not_joined n w f
                (h ∙ ap (λ ds. all_created c e (suc others) 1 ++ worked (run_worker c e 0) ∷ ds) h')
        ]
      ])

-- ===== src/Worker/Agreement.antt =====
-- The barriers that the threads of one run pass.
use mathlib.Core.Path.{ap₂}
use altered_ccbench_fork.Common.{
  ℕ, zero, suc, ◌+◌, List, [], ◌∷◌, ◌++◌, if◌then◌else◌, ltb, ◌==◌, Bool, true, false, ◌&&◌, ◌≡◌,
  refl, ap, arith, ◌∙◌,
}
use altered_ccbench_fork.Machine.{Config}
use altered_ccbench_fork.Worker.Event.{Event}
use altered_ccbench_fork.Worker.Program.{
  Action, call, barrier, init_samples, collect, summary, step_lines, test_body, repetition,
  repetitions, collected, turns, run_worker, id_of_rank, b0, b3,
}

-- The barrier numbers in a program, in order.
abbrev pub barriers : List Action → List ℕ
barriers [] = []
barriers (barrier n ∷ p) = n ∷ barriers p
barriers (call _ ∷ p) = barriers p
barriers (init_samples ∷ p) = barriers p
barriers (collect _ ∷ p) = barriers p
barriers (summary ∷ p) = barriers p

-- B1 and B2, by test.
abbrev pub schedule : Event → List ℕ
schedule Event.store_on_modified_no_sync = []
schedule Event.cas_concurrent = []
schedule Event.load_from_l1 = []
schedule Event.load_from_mem_size = []
schedule Event.lfence = []
schedule Event.sfence = []
schedule Event.mfence = []
schedule Event.profiler = []
schedule Event.pause = []
schedule Event.nop = []
schedule Event.store_on_shared = 2 ∷ 3 ∷ []
schedule Event.store_on_owned_mine = 2 ∷ 3 ∷ []
schedule Event.store_on_owned = 2 ∷ 3 ∷ []
schedule Event.load_from_shared = 2 ∷ 3 ∷ []
schedule Event.load_from_owned = 2 ∷ 3 ∷ []
schedule Event.tas = 2 ∷ 3 ∷ []
schedule Event.cas_on_shared = 2 ∷ 3 ∷ []
schedule Event.fai_on_shared = 2 ∷ 3 ∷ []
schedule Event.tas_on_shared = 2 ∷ 3 ∷ []
schedule Event.swap_on_shared = 2 ∷ 3 ∷ []
schedule _ = 2 ∷ []

-- The barriers of `left` repetitions, and one B0 for each turn.
abbrev pub rounds : Event → ℕ → List ℕ
rounds e zero = []
rounds e (suc left) = (0 ∷ (schedule e ++ 4 ∷ [])) ++ rounds e left

abbrev pub zeros : ℕ → List ℕ
zeros zero = []
zeros (suc left) = 0 ∷ zeros left

barriers-append : (p q : List Action) → barriers (p ++ q) ≡ barriers p ++ barriers q
barriers-append [] q = refl
barriers-append (barrier n ∷ p) q = ap (λ r. n ∷ r) (barriers-append p q)
barriers-append (call _ ∷ p) q = barriers-append p q
barriers-append (init_samples ∷ p) q = barriers-append p q
barriers-append (collect _ ∷ p) q = barriers-append p q
barriers-append (summary ∷ p) q = barriers-append p q

optional : (b : Bool) (p : List Action) → barriers p ≡ [] → barriers (if b then p else []) ≡ []
optional true p h = h
optional false p h = refl

-- A part without barriers before a program.
quiet_before :
    (b : Bool) (p q : List Action) {ns : List ℕ}
    → barriers p ≡ []
    → barriers q ≡ ns
    → barriers ((if b then p else []) ++ q) ≡ ns
quiet_before b p q hp hq =
    barriers-append (if b then p else []) q ∙ ap (λ r. r ++ barriers q) (optional b p hp) ∙ hq

module _ (c : Config) where
  barriers-step_lines : barriers (step_lines c) ≡ []
  barriers-step_lines = ground arith

  -- In each test every thread passes the same barriers.
  body_agrees : (id reps : ℕ) (e : Event) → barriers (test_body c id reps e) ≡ schedule e
  unfolding test_body
  body_agrees zero reps Event.store_on_modified = refl
  body_agrees zero reps e = ground arith
  body_agrees (suc zero) reps Event.store_on_modified = refl
  body_agrees (suc zero) reps e = ground arith
  body_agrees (suc (suc zero)) reps Event.store_on_modified = refl
  body_agrees (suc (suc zero)) reps e = ground arith
  body_agrees (suc (suc (suc id))) reps Event.store_on_modified = refl
  body_agrees (suc (suc (suc id))) reps e = ground arith

  repetition_agrees :
      (id reps : ℕ) (e : Event) → barriers (repetition c id e reps) ≡ 0 ∷ (schedule e ++ 4 ∷ [])
  unfolding repetition
  repetition_agrees id reps e =
      let tail : barriers (test_body c id reps e ++ b3 ∷ []) ≡ schedule e ++ 4 ∷ [] =
        barriers-append (test_body c id reps e) (b3 ∷ [])
        ∙ ap (λ r. r ++ 4 ∷ []) (body_agrees id reps e) in
      quiet_before c.test_flush _ (b0 ∷ (test_body c id reps e ++ b3 ∷ [])) refl
        (ap (λ r. 0 ∷ r) tail)

  repetitions_agree :
      (id : ℕ) (e : Event) (left reps : ℕ) → barriers (repetitions c id e left reps) ≡ rounds e left
  unfolding repetitions
  repetitions_agree id e zero reps = refl
  repetitions_agree id e (suc left) reps =
      simp (barriers-append, repetition_agrees, repetitions_agree id e left (reps + 1))

  collected_none : (id : ℕ) (e : Event) → barriers (collected c id e) ≡ []
  unfolding collected
  collected_none id Event.store_on_modified = refl
  collected_none id e = ground arith

  turns_agree :
      (id : ℕ) (e : Event) (left turn : ℕ) → barriers (turns c id e left turn) ≡ zeros left
  unfolding turns
  turns_agree id e zero turn = refl
  turns_agree id e (suc left) turn =
      quiet_before (id == turn && ltb id c.test_cores) (collected c id e) _ (collected_none id e)
        (ap (λ r. 0 ∷ r) (turns_agree id e left (turn + 1)))

-- Every worker, whatever its rank, passes the same barriers in the same order: 0, 0, then for each
-- repetition 0, those of the test and 4, then 0 for each core, 11 and 0.
pub run_worker_schedule :
    (c : Config) (e : Event) (rank : ℕ)
    → barriers (run_worker c e rank)
      ≡ 0 ∷ 0 ∷ (rounds e c.test_reps ++ (zeros c.test_cores ++ 11 ∷ 0 ∷ []))
unfolding run_worker
run_worker_schedule c e rank =
    let id = id_of_rank rank in
    let end : barriers ((if id == 0 then summary ∷ [] else []) ++ b0 ∷ []) ≡ 0 ∷ [] =
      quiet_before (id == 0) _ (b0 ∷ []) refl refl in
    ap (λ r. 0 ∷ r)
      (quiet_before (ltb id c.test_cores) _ _ refl (
        ap (λ r. 0 ∷ r)
          (barriers-append (repetitions c id e c.test_reps 0) _
            ∙ ap₂ ◌++◌ (repetitions_agree c id e c.test_reps 0) (
                barriers-append (turns c id e c.test_cores 0) _
                ∙ ap₂ ◌++◌ (turns_agree c id e c.test_cores 0) (ap (λ r. 11 ∷ r) end)))))

-- ===== src/Worker/Program/Run.antt =====
-- The loop over the repetitions in `run_worker`, and what the threads do before and after it.
use altered_ccbench_fork.Common.{
  ℕ, zero, suc, ◌+◌, ◌%◌, ◌^◌, List, [], ◌∷◌, ◌++◌, if◌then◌else◌, ltb, ◌==◌, ◌&&◌,
}
use altered_ccbench_fork.Machine.{Config, lfence, sfence, mfence, pause, nop}
use altered_ccbench_fork.Worker.Event.{Event}
use altered_ccbench_fork.Worker.Program.Statement.{
  Action, call, init_samples, collect, summary, b0, b3, b10, full_fence, flush_line,
}
use altered_ccbench_fork.Worker.Program.Basic.{
  store_on_modified, store_on_modified_no_sync, store_on_exclusive, store_on_shared,
  store_on_owned_mine, store_on_owned, store_on_invalid, load_from_modified, load_from_exclusive,
  load_from_shared, load_from_owned, load_from_invalid,
}
use altered_ccbench_fork.Worker.Program.Atomic.{
  cas_test, fai_test, tas_test, swap_test, cas_on_modified, fai_on_modified, tas_on_modified,
  swap_on_modified,
}
use altered_ccbench_fork.Worker.Program.Shared.{
  cas_on_shared, fai_on_shared, tas_on_shared, swap_on_shared, cas_concurrent, fai_on_invalid,
  load_from_l1, load_from_mem_size, one_instruction, profiler,
}

-- `switch (test_test)`
unfoldable pub test_body : Config → ℕ → ℕ → Event → List Action
unfolding store_on_modified store_on_modified_no_sync store_on_exclusive store_on_shared
    store_on_owned_mine store_on_owned store_on_invalid load_from_modified load_from_exclusive
    load_from_shared load_from_owned load_from_invalid cas_test fai_test tas_test swap_test
    cas_on_modified fai_on_modified tas_on_modified swap_on_modified cas_on_shared fai_on_shared
    tas_on_shared swap_on_shared cas_concurrent fai_on_invalid load_from_l1 load_from_mem_size
    one_instruction profiler
test_body c id reps Event.store_on_modified = store_on_modified id
test_body c id reps Event.store_on_modified_no_sync = store_on_modified_no_sync id
test_body c id reps Event.store_on_exclusive = store_on_exclusive id c
test_body c id reps Event.store_on_shared = store_on_shared id
test_body c id reps Event.store_on_owned_mine = store_on_owned_mine id
test_body c id reps Event.store_on_owned = store_on_owned id
test_body c id reps Event.store_on_invalid = store_on_invalid id c
test_body c id reps Event.load_from_modified = load_from_modified id
test_body c id reps Event.load_from_exclusive = load_from_exclusive id c
test_body c id reps Event.load_from_shared = load_from_shared id c
test_body c id reps Event.load_from_owned = load_from_owned id
test_body c id reps Event.load_from_invalid = load_from_invalid id c
test_body c id reps Event.cas = cas_test id
test_body c id reps Event.fai = fai_test id
test_body c id reps Event.tas = tas_test id
test_body c id reps Event.swap = swap_test id
test_body c id reps Event.cas_on_modified = cas_on_modified id c reps
test_body c id reps Event.fai_on_modified = fai_on_modified id
test_body c id reps Event.tas_on_modified = tas_on_modified id c
test_body c id reps Event.swap_on_modified = swap_on_modified id
test_body c id reps Event.cas_on_shared = cas_on_shared id
test_body c id reps Event.fai_on_shared = fai_on_shared id
test_body c id reps Event.tas_on_shared = tas_on_shared id c
test_body c id reps Event.swap_on_shared = swap_on_shared id
test_body c id reps Event.cas_concurrent = cas_concurrent id c
test_body c id reps Event.fai_on_invalid = fai_on_invalid id c
test_body c id reps Event.load_from_l1 = load_from_l1 id
test_body c id reps Event.load_from_mem_size = load_from_mem_size id c
test_body c id reps Event.lfence = one_instruction id lfence
test_body c id reps Event.sfence = one_instruction id sfence
test_body c id reps Event.mfence = one_instruction id mfence
test_body c id reps Event.profiler = profiler
test_body c id reps Event.pause = one_instruction id pause
test_body c id reps Event.nop = one_instruction id nop

-- One repetition.
unfoldable pub repetition : Config → ℕ → Event → ℕ → List Action
repetition c id e reps =
    (if c.test_flush then call full_fence ∷ call flush_line ∷ call full_fence ∷ [] else [])
    ++ (b0 ∷ (test_body c id reps e ++ b3 ∷ []))

-- `for (reps = 0; reps < test_reps; reps++)`, with `left` rounds to go.
unfoldable pub repetitions : Config → ℕ → Event → ℕ → ℕ → List Action
repetitions c id e zero reps = []
repetitions c id e (suc left) reps = repetition c id e reps ++ repetitions c id e left (reps + 1)

-- The statistics that a thread collects at its turn.
unfoldable pub collected : Config → ℕ → Event → List Action
collected c id Event.store_on_owned_mine =
    if ltb id 2 then collect 0 ∷ (if id == 1 then collect 1 ∷ [] else []) else []
collected c id Event.store_on_owned =
    if ltb id 2 then collect 0 ∷ (if id == 1 then collect 1 ∷ [] else []) else []
collected c id Event.load_from_l1 = if ltb id 1 then collect 0 ∷ [] else []
collected c id Event.load_from_mem_size = if ltb id c.test_cores then collect 0 ∷ [] else []
collected c id _ = collect 0 ∷ []

-- `for (id = 0; id < test_cores; id++)`, with `left` rounds to go.
unfoldable pub turns : Config → ℕ → Event → ℕ → ℕ → List Action
turns c id e zero turn = []
turns c id e (suc left) turn =
    (if id == turn && ltb id c.test_cores then collected c id e else [])
    ++ (b0 ∷ turns c id e left (turn + 1))

-- `ID` is a uint8_t.
unfoldable pub id_of_rank : ℕ → ℕ
id_of_rank rank = rank % 2 ^ 8

-- `run_worker(rank)`, from the first barrier on.
unfoldable pub run_worker : Config → Event → ℕ → List Action
run_worker c e rank =
    let id = id_of_rank rank in
    b0
    ∷ ((if ltb id c.test_cores then init_samples ∷ [] else [])
        ++ (b0
            ∷ (repetitions c id e c.test_reps 0
                ++ (turns c id e c.test_cores 0
                    ++ (b10 ∷ ((if id == 0 then summary ∷ [] else []) ++ b0 ∷ []))))))

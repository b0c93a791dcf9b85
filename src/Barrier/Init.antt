-- ===== src/Barrier/Init.antt =====
-- `barrier_init` and `barriers_init` of src/barrier.c, over the array of barriers.
use altered_ccbench_fork.Common.{
  ℕ, zero, suc, ◌+◌, ◌%◌, ◌^◌, ◌≤◌, ◌<◌, ◌≡◌, if◌then◌else◌, leb, arith, update, ltb, ◌&&◌,
}
use altered_ccbench_fork.Barrier.Wait.{Barrier, color_all}
use altered_ccbench_fork.Barrier.System.{init}

abbrev pub num_barriers : ℕ
num_barriers = 16

-- `for (ue = 0; ue < total_cores; ue++) num_parts += color(ue)`, in a uint32_t, with `left` rounds
-- to go.
count_parts : (ℕ → ℕ) → ℕ → ℕ → ℕ → ℕ
count_parts color zero ue num_parts = num_parts
count_parts color (suc left) ue num_parts =
    count_parts color left (ue + 1) ((num_parts + color ue) % 2 ^ 32)

-- The argument `participants` is not used by the code.
pub barrier_init : ℕ → ℕ → (ℕ → ℕ) → ℕ → (ℕ → Barrier) → ℕ → Barrier
barrier_init barrier_num participants color total_cores barriers =
    if leb num_barriers barrier_num
    then barriers
    else update barriers barrier_num (record {
      num_participants = count_parts color total_cores 0 0;
      num_crossing1 = 0;
      num_crossing2 = 0;
      num_crossing3 = 0;
      color = color;
    })

-- `for (bar = 0; bar < NUM_BARRIERS; bar++)`, with `left` rounds to go.
init_from : ℕ → ℕ → ℕ → (ℕ → Barrier) → ℕ → Barrier
init_from num_procs zero bar barriers = barriers
init_from num_procs (suc left) bar barriers =
    init_from num_procs left (bar + 1) (barrier_init bar 0 color_all num_procs barriers)

pub barriers_init : ℕ → (ℕ → Barrier) → ℕ → Barrier
barriers_init num_procs barriers = init_from num_procs num_barriers 0 barriers

count_parts-color_all :
    (left ue acc : ℕ) → acc + left < 2 ^ 32 → count_parts color_all left ue acc ≡ acc + left
unfolding count_parts
count_parts-color_all zero ue acc h = omega arith
count_parts-color_all (suc left) ue acc h =
    ground (arith, count_parts-color_all left (ue + 1) ((acc + 1) % 2 ^ 32))

barrier_init_lem :
    (p bar : ℕ) (barriers : ℕ → Barrier)
    → p < 2 ^ 32
    → bar < num_barriers
    → barrier_init bar 0 color_all p barriers ≡ update barriers bar (init p).bar
unfolding barrier_init
barrier_init_lem p bar barriers small lt = ground (arith, count_parts-color_all p 0 0)

init_from_lem :
    (p left bar : ℕ) (barriers : ℕ → Barrier) (i : ℕ)
    → p < 2 ^ 32
    → bar + left ≤ num_barriers
    → init_from p left bar barriers i
      ≡ (if leb bar i && ltb i (bar + left) then (init p).bar else barriers i)
unfolding init_from
init_from_lem p zero bar barriers i small h = ground arith
init_from_lem p (suc left) bar barriers i small h =
    rw (barrier_init_lem p bar barriers small (omega arith))
      (ground (arith, init_from_lem p left (bar + 1) (update barriers bar (init p).bar) i))

-- For fewer than 2 ^ 32 processes `barriers_init` makes each of the 16 barriers one on which all of
-- them take part and no crossing is counted, and writes no barrier beyond.
pub barriers_init_lem :
    (num_procs : ℕ) (barriers : ℕ → Barrier) (bar : ℕ)
    → num_procs < 2 ^ 32
    → barriers_init num_procs barriers bar
      ≡ (if ltb bar num_barriers then (init num_procs).bar else barriers bar)
unfolding barriers_init
barriers_init_lem p barriers bar small = ground (arith, init_from_lem p 16 0 barriers bar)

-- ===== src/Barrier/Wait.antt =====
-- `barrier_t` of include/barrier.h and `barrier_wait` of src/barrier.c, one shared access at a
-- time, for a number below `NUM_BARRIERS`: with another it returns at once. Accesses are
-- sequentially consistent, so `_mm_mfence` and `PAUSE` change nothing.
use altered_ccbench_fork.Common.{ℕ, ◌+◌, ◌%◌, ◌^◌, if◌then◌else◌, ltb, ◌==◌, Bool, false}

pub record Barrier : Type 0 where
  pub num_participants : ℕ  -- uint64_t
  pub num_crossing1 : ℕ  -- volatile uint64_t, and so the next two
  pub num_crossing2 : ℕ
  pub num_crossing3 : ℕ
  pub color : ℕ → ℕ

abbrev pub color_all : ℕ → ℕ
color_all id = 1

-- Where a thread stands in `barrier_wait`: before the call, before the reset, the increment and the
-- test of each of the three crossings.
pub data Pc : Type 0 where
  outside : Pc
  reset2 count1 wait1 : Pc
  reset3 count2 wait2 : Pc
  reset1 count3 wait3 : Pc

-- A thread, with the number of calls of `barrier_wait` that it has returned from.
pub record Thread : Type 0 where
  pub pc : Pc
  pub returned : ℕ

-- `FAI_U64`
abbrev pub fai_u64 : ℕ → ℕ
fai_u64 c = (c + 1) % 2 ^ 64

abbrev pub at : Pc → ℕ → Thread
at p k = record { pc = p; returned = k }

-- One shared access by thread `id`. A failed test of a `while` loop leaves the thread where it is.
unfoldable pub step : ℕ → Barrier → Pc → ℕ → Barrier × Thread
step id b outside k = if b.color id == 0 then (b, at outside (k + 1)) else (b, at reset2 k)
step id b reset2 k = (record b { num_crossing2 = 0 }, at count1 k)
step id b count1 k = (record b { num_crossing1 = fai_u64 b.num_crossing1 }, at wait1 k)
step id b wait1 k = (b, at (if ltb b.num_crossing1 b.num_participants then wait1 else reset3) k)
step id b reset3 k = (record b { num_crossing3 = 0 }, at count2 k)
step id b count2 k = (record b { num_crossing2 = fai_u64 b.num_crossing2 }, at wait2 k)
step id b wait2 k = (b, at (if ltb b.num_crossing2 b.num_participants then wait2 else reset1) k)
step id b reset1 k = (record b { num_crossing1 = 0 }, at count3 k)
step id b count3 k = (record b { num_crossing3 = fai_u64 b.num_crossing3 }, at wait3 k)
step id b wait3 k =
    if ltb b.num_crossing3 b.num_participants then (b, at wait3 k) else (b, at outside (k + 1))

-- The thread's next access is a test of a `while` loop that sends it round again.
unfoldable pub blocked : Barrier → Pc → Bool
blocked b wait1 = ltb b.num_crossing1 b.num_participants
blocked b wait2 = ltb b.num_crossing2 b.num_participants
blocked b wait3 = ltb b.num_crossing3 b.num_participants
blocked b _ = false

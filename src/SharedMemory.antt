-- ===== src/SharedMemory.antt =====
-- The shared memory objects of the barriers and of the lines: the heads of `barriers_init` in
-- src/barrier.c and of `cache_line_open` in src/ccbench.c, which obtain one, and `barriers_term` and
-- `cache_line_close`, which remove it. What the system calls return is a parameter.
use altered_ccbench_fork.Common.{
  ℕ, ◌*◌, ◌/◌, ◌^◌, ◌-◌, Bool, true, false, if◌then◌else◌, ltb, leb, ◌==◌, Option, none, some,
}
pub mod Opening
use mathlib.Core.Option.{map}
use altered_ccbench_fork.Machine.{u32, Lines}
use altered_ccbench_fork.Barrier.Init.{num_barriers}
use altered_ccbench_fork.Worker.Event.{Event}
use altered_ccbench_fork.Setup.{zero_lines, is_mem_size}
use altered_ccbench_fork.Chase.{create_rand_list_cl}

-- What `shm_open` returns: a descriptor, or -1 with `errno` EEXIST or another.
pub data Opened : Type 0 where
  descriptor : ℕ → Opened
  exists_already : Opened
  refused : Opened

-- `shm_open` with O_EXCL and without it; `ftruncate` of a descriptor to a size, true for a result
-- below 0; `mmap` of a descriptor with a size, as an address. With them the size of the object of an
-- earlier run, and the end of the page that a size ends in: up to there an object can be written.
pub record Calls : Type 0 where
  pub shm_open_new : Opened
  pub shm_open : Opened
  pub ftruncate : ℕ → ℕ → Bool
  pub mmap : ℕ → ℕ → ℕ
  pub earlier_size : ℕ
  pub page_end : ℕ → ℕ

-- `exit` with a status, or the address, with the size that the object was set to, if it was.
pub data Obtained : Type 0 where
  exited : ℕ → Obtained
  mapped : (address : ℕ) → (set_to : Option ℕ) → Obtained

abbrev pub null : ℕ
null = 0

-- `(void*) -1`
abbrev pub map_failed : ℕ
map_failed = 2 ^ 64 - 1

module _ (k : Calls) (size : ℕ) where
  unfoldable pub map_object : ℕ → Option ℕ → Obtained
  map_object fd set_to =
      if k.mmap fd size == null then exited 134 else mapped (k.mmap fd size) set_to

  -- The second `shm_open`.
  unfoldable pub open_existing : Opened → Obtained
  unfolding map_object
  open_existing (descriptor fd) = map_object fd none
  open_existing exists_already = exited 1
  open_existing refused = exited 1

  unfoldable pub open_object : Opened → Obtained
  unfolding open_existing
  open_object (descriptor fd) = if k.ftruncate fd size then exited 1 else map_object fd (some size)
  open_object exists_already = open_existing k.shm_open
  open_object refused = exited 1

  -- From the first `shm_open` to the test of the address.
  unfoldable pub obtain : Obtained
  unfolding open_object
  obtain = open_object k.shm_open_new

-- `NUM_BARRIERS * sizeof(barrier_t)`, and at least 8192.
abbrev pub barriers_size : ℕ
barriers_size = if ltb (num_barriers * 64) 8192 then 8192 else num_barriers * 64

-- `barriers_init` up to the loop over the barriers.
unfoldable pub barriers_memory : Calls → Obtained
unfolding obtain
barriers_memory k = obtain k barriers_size

-- The size of the mapped object.
abbrev pub object_size : Calls → Option ℕ → ℕ
object_size k none = k.earlier_size
object_size k (some size) = size

-- Whether `size` bytes from an address that `mmap` returned can be written.
unfoldable pub writable : Calls → ℕ → ℕ → Option ℕ → Bool
writable k size address set_to =
    if address == map_failed then false else leb size (k.page_end (object_size k set_to))

-- What `cache_line_open` comes to: the status of the process, its end by a signal (SIGSEGV or
-- SIGBUS), or the address and the lines, of which only the first words are kept here.
pub data Lined : Type 0 where
  ended : ℕ → Lined
  killed : Lined
  opened : (address : ℕ) → (set_to : Option ℕ) → Lines → Lined

-- What `memset` leaves in a word.
abbrev pub ones : Lines
ones i = 0x31313131

-- The lines of `test_mem_size` bytes, and their size.
abbrev pub test_cache_line_num : ℕ → ℕ
test_cache_line_num test_mem_size = u32 (test_mem_size / 64)

abbrev pub lines_size : ℕ → ℕ
lines_size test_mem_size = test_cache_line_num test_mem_size * 64

module _ (k : Calls) (e : Event) (test_mem_size fuel : ℕ) where
  -- In memory that can be written: the loop over the lines and the list, of `test_mem_size / sizeof(uint64_t)` numbers, eight to a
  -- line. `none` when the loops of `create_rand_list_cl` do not end within the fuel.
  unfoldable pub filled : ℕ → Option Lines
  filled address =
      if is_mem_size e
      then create_rand_list_cl address (test_mem_size / 64) fuel
          (zero_lines (test_cache_line_num test_mem_size) 0 ones)
      else some (zero_lines (test_cache_line_num test_mem_size) 0 ones)

  -- `memset` writes the whole size, and nothing after it writes more.
  unfoldable pub with_lines : Obtained → Option Lined
  unfolding filled writable
  with_lines (exited status) = some (ended status)
  with_lines (mapped address set_to) =
      if writable k (lines_size test_mem_size) address set_to
      then map (opened address set_to) (filled address)
      else some killed

  -- For the thread of `main`, whose ID is 0.
  unfoldable pub cache_line_open : Option Lined
  unfolding obtain with_lines
  cache_line_open = with_lines (obtain k (lines_size test_mem_size))

-- The objects by name, and `shm_unlink`.
pub record Objects : Type 0 where
  pub cache_line : Bool
  pub barrier_mem : Bool

unfoldable pub cache_line_close : ℕ → Objects → Objects
cache_line_close id o = if id == 0 then record o { cache_line = false } else o

unfoldable pub barriers_term : ℕ → Objects → Objects
barriers_term id o = if id == 0 then record o { barrier_mem = false } else o

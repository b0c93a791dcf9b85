-- ===== src/Tests/Memories.antt =====
-- The theorem on `cache_line_open` at concrete inputs: an object of an earlier run, for
-- LOAD_FROM_MEM_SIZE on two lines.
use altered_ccbench_fork.Common.{◌+◌, ◌*◌, ◌/◌, arith, false}
use altered_ccbench_fork.Worker.Event
use altered_ccbench_fork.SharedMemory.{Calls, descriptor, exists_already, cache_line_open}
use altered_ccbench_fork.SharedMemory.Opening.{Opens, cache_line_open-Opens}
use altered_ccbench_fork.Tests.Chasing.{fair}

abbrev calls : Calls
calls = record {
  shm_open_new = exists_already;
  shm_open = descriptor 3;
  ftruncate = λ fd size. false;
  mmap = λ fd size. 4096;
  earlier_size = 128;
  page_end = λ n. (n + 4095) / 4096 * 4096;
}

cache_line_open-Opens_example :
    Opens calls Event.load_from_mem_size 128 (cache_line_open calls Event.load_from_mem_size 128 2)
cache_line_open-Opens_example =
    cache_line_open-Opens calls Event.load_from_mem_size 128 2 (λ n. omega arith) (omega arith)
      (omega arith) (λ h. fair)

-- ===== src/Lib.antt =====
-- ccbench measures the latency of cache-coherence operations: threads pinned to cores load, store
-- and apply atomic operations to shared cache lines, in an order that barriers enforce.
--
-- Common: tests into Bool, sums over families of threads, facts on bitwise operations.
-- Barrier models src/barrier.c and include/barrier.h. `Barrier.Wait.step` is one shared access of
--   `barrier_wait`; `Barrier.System` interleaves any number of threads on one barrier;
--   `Barrier.Init` is `barriers_init` and `barrier_init` from the mapping of the memory on.
-- Random models `xorshf96`, `clrand` and `pow2roundup` of include/ccbench.h.
-- Machine is what the measured operations run on: the options, the lines, the variables of one
--   thread, and the macros `PFDI` and `PFDO` of include/pfd.h.
-- Access models the measured operations of src/ccbench.c: `cas`, `fai`, `tas`, `swap` and their
--   variants (Atomic), the `store_0` family (Store), the `load_0` family and `invalidate` (Load).
--   Specification has one atomic operation for each that returns a value.
-- Chase models `create_rand_list_cl` and the `load_next` family of src/ccbench.c.
-- Setup models the rest of `main` in src/ccbench.c before the threads start: the assertions on the
--   stride, the fence levels, the first value of each line and of each thread's variables; FromOptions
--   takes the settings that CommandLine leaves. Threads models the creation and the joining of the
--   threads, with what the calls of pthreads return. Whole goes from the options
--   to the results of a test.
-- SharedMemory models `cache_line_open` and `cache_line_close` of src/ccbench.c and `barriers_term` of
--   src/barrier.c, with what the system calls return.
-- Worker models `run_worker` of src/ccbench.c: the program of each thread, which is a list of
--   calls and barriers (Program), what a call does (Exec), and the interleavings of the threads of
--   one repetition with barriers that all threads pass together (Round; Opening and Arrival are its
--   part before B0). Outcome follows whole
--   tests. Interleaved has the same interleavings with barriers that are calls of `barrier_wait`, one
--   shared access at a time: Simulation and Refinement take its runs to those of Round, Passing and
--   Realisation take the runs of Round to its, and Results has the tests of Outcome over it.
--   Legend is what core 0 prints on the meaning of the results.
-- Libc models what the parsing of the options calls of the C library on strings.
-- CommandLine models the parsing of the options in src/ccbench.c: `parse_cores_array_option`
--   (CoreList, Cores), `parse_size` (Size), `parse_test_option` (TestOption) and the `switch` of
--   `main` over what `getopt_long` returns (Options). Choice says what the options on cores ask for,
--   without the arrays; `Options.set_options` runs over the arrays or over the choices.
-- Statistics models src/pfd.c: `get_abs_deviation` (Deviation), `median_non_zero_ticks` (Median),
--   `measure_minimum_tick_delta`, `estimate_median_rdtsc_delta` and `pfd_store_init` (Correction),
--   `pfd_collect_abs_deviation`, and of src/ccbench.c `collect_core_stats` and the summary over the
--   cores (Summary); Turns and Collected follow the turns of the threads to that summary.
--   Double is what the code does with a `double`; no algebraic law is assumed of it but the
--   records `IsExact`, `IsRounding` and `IsComparable`, where a theorem asks for them.
-- Tests applies the theorems to concrete inputs.
--
-- Machine integers are natural numbers with the wrap-around written out. Memory is sequentially
-- consistent. A call of a measured operation runs without interruption by other threads; in the
-- tests followed only one thread accesses the line between two barriers. In Worker.Interleaved every
-- shared access of `barrier_wait` is a step of its own; a repetition, from the
-- flush before B0 to B3, starts when all threads are through the one before: the flush does not
-- overlap with the last B3 of others. The theorems on whole tests ask for at most 256 threads, since
-- `ID` is a uint8_t: beyond, two threads share an ID.
--
-- The loops `do ... while (cln > 0)` end when the random number generator draws 0, which no bound
-- on their rounds guarantees. They run on the fuel of the record `Config`. The hypothesis
-- `IsLively` says that the generator draws 0 within the fuel whenever it is asked. With stride 1 it
-- holds for fuel 1.
--
-- Parameters: the values of the cycle counter, the seeds of the generator, the address of the
-- mapped lines, the correction in `Config`, the operations on a `double`, the options that
-- `getopt_long` returns, and the results of `pthread_create`, `pthread_join`, `shm_open`, `ftruncate`
-- and `mmap`, with the size of an object of an earlier run and the end of the page of an address.
--
-- Not modelled: the pinning of threads, memory that runs out, printing but for the summary over the
-- cores and the legend; the variants for SPARC and Tilera.
pub mod Common
pub mod Barrier
pub mod Libc
pub mod Statistics
pub mod CommandLine
pub mod Random
pub mod Machine
pub mod Access
pub mod Chase
pub mod Worker
pub mod Setup
pub mod SharedMemory
pub mod Tests

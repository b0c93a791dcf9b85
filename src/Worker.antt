-- ===== src/Worker.antt =====
-- src/ccbench.c: `run_worker` and the tests.
pub mod Event
pub mod Program
pub mod Exec
pub mod Agreement
pub mod Numbers
pub mod Round
pub mod Outcome
pub mod Interleaved
pub mod Legend

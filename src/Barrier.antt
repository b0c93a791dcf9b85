-- ===== src/Barrier.antt =====
-- include/barrier.h and src/barrier.c: the array of barriers and its initialisation. The
-- `shm_open`, `ftruncate` and `mmap` calls of `barriers_init` give the memory that the array lies
-- in; their failures end the process before any barrier is used.
pub mod Wait
pub mod System
pub mod Invariant
pub mod Safety
pub mod Moves
pub mod Init
pub use Wait.{Barrier}

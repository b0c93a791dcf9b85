-- ===== src/Access.antt =====
-- The measured operations of src/ccbench.c, from `cas` to `load_0` and `invalidate`. The pointer
-- argument `cl` is the index of the line that it points to, and `reps` the round, which is also the
-- index of the sample.
mod Atomic
mod Store
mod Load
unfoldable pub use Atomic.*
unfoldable pub use Store.*
unfoldable pub use Load.*
pub mod Rounds
pub mod Sequential
pub mod Results
pub mod Transfers
pub mod Specification

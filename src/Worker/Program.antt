-- ===== src/Worker/Program.antt =====
-- What each thread does in `run_worker`: the `switch (test_test)` of src/ccbench.c, a function for
-- each case, by clauses on `ID` as in its inner `switch`.
mod Statement
mod Basic
mod Atomic
mod Shared
mod Run
unfoldable pub use Statement.*
unfoldable pub use Basic.*
unfoldable pub use Atomic.*
unfoldable pub use Shared.*
unfoldable pub use Run.*

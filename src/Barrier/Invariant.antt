-- ===== src/Barrier/Invariant.antt =====
-- `barrier_wait` seen as one stage repeated for ever: reset the next counter, increment this
-- stage's counter, wait for it to reach the number of participants. The three crossings of the
-- code take the three counters in turn.
mod Stage
mod Effect
mod Keep
pub use Stage.*
pub use Keep.{Reach-Inv}

-- ===== src/Statistics.antt =====
-- src/pfd.c: the statistics over the samples and the correction for the cost of a reading; and the
-- summary over the cores in src/ccbench.c.
pub mod Double
pub mod Deviation
pub mod Buckets
pub mod Partition
pub mod Extremes
pub mod Median
pub mod Order
pub mod Correction
pub mod Delta
pub mod Estimate
pub mod Shared
pub mod Summary
pub mod Cores
pub mod Turns
pub mod Collected

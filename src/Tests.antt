-- ===== src/Tests.antt =====
-- Tests: the theorems applied at concrete inputs.
mod Barriers
mod Chasing
mod Data
mod Doubles
mod CommandLines
mod Samples
mod Summaries
mod Memories
mod Operations
mod Settings
mod Workers
mod Interleaved

-- ===== src/Worker/Outcome.antt =====
-- What the tests of two cores measure: the results of the operations in every interleaving.
pub mod Calls
pub mod Runs
pub mod Cas
pub mod Tas
pub mod Fai
mod Modified
pub mod CasModified
pub mod TasModified

-- ===== src/CommandLine.antt =====
-- src/ccbench.c: the parsing of the options.
pub mod Result
pub mod CoreList
pub mod RoundTrip
pub mod Cores
pub mod Choice
pub mod Refinement
pub mod Size
pub mod TestOption
pub mod Options
pub mod Accepts
pub mod Simulation
pub mod Placement
pub mod TestNames
pub mod Scale
pub mod Valid

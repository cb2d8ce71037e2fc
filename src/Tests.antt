-- ===== src/Tests.antt =====
-- Tests of the modules at concrete inputs.
pub mod Data
pub mod Policy
pub mod Control
pub mod Router
pub mod Lineup
pub mod Phases
pub mod Ledger
pub mod Reviewer
pub mod Pipeline
pub mod Gateway

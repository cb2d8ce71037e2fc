-- ===== src/Phases.antt =====
-- skills/speckit-pipeline/scripts: the phases of a specification pipeline, and which of them run.
pub mod Table
pub mod Resolve
pub mod Cli
pub mod Order
pub mod Plans
pub mod Printed
pub mod Offences
pub mod Plannable

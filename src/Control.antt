-- ===== src/Control.antt =====
-- workerbees/control.py: the audit and budget state of a workspace, in control.sqlite. Each method
-- is a function from the fault that SQLite reports, if any, and the tables to its result and the
-- new tables: a fault rolls the transaction back. The second database that mirrors these tables
-- and the time stamps that nothing reads are left out.
pub mod Tables
pub mod Runs
pub mod Replay
pub mod Approvals
pub mod Ops
pub mod Once
pub mod Lease
pub mod Budget
pub mod Rows
pub mod TwoPerson

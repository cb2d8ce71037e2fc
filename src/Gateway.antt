-- ===== src/Gateway.antt =====
-- workerbees/gateway.py: one pass of a request through validation, replay, policy, audit,
-- reservation, invocation and return.
pub mod Data
pub mod Steps
pub mod Dispatch
pub mod Guards
pub mod Entry
pub mod Clearance
pub mod Closing
pub mod Ends
pub mod Invocation
pub mod Raises

-- ===== src/Pipeline.antt =====
-- pipeline.py: from a source to a draft that is checked and reviewed.
pub mod Worker
pub mod Brief
pub mod Verified
pub mod Quality
pub mod Bounds

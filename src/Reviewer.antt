-- ===== src/Reviewer.antt =====
-- reviewer.py: the review of a draft by a model of another provider.
pub mod Verdicts
pub mod Review
pub mod Judged
pub mod Vendor

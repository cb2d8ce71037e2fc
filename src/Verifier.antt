-- ===== src/Verifier.antt =====
-- verifier.py: the check of quotes against paragraphs.
pub mod Verify
pub mod Anchors
pub mod Reports
pub mod Drafts

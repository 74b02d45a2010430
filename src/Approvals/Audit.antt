-- ===== src/Approvals/Audit.antt =====
-- The consents as a record for audits: what any sequence of the approvals' transactions, of either
-- flow and of any instance, does to them. A bundle is what a link was read to be, at any earlier time.
pub mod Trail
pub mod Effects
pub mod Answers
pub mod Kept

-- ===== src/Approvals.antt =====
-- src/child-approvals and src/visitor-approvals: the access of minors and of visitors that an adult
-- of their unit has to authorize. The two directories are twins, over tables of their own; here one
-- function serves both, with the `Flow` as its first argument, where they do not differ.
pub mod Rows
pub mod Rules
pub mod Repository
pub mod Requests
pub mod Policy
pub mod Revocation
pub mod Invitation
pub mod Public
pub mod Service
pub mod Access
pub mod Refusing
pub mod Closing
pub mod Lockout
pub mod Audit
pub mod Adulthood
pub mod Acceptance
pub mod Authorizing
pub mod Visitors

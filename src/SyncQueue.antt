-- ===== src/SyncQueue.antt =====
-- The queue of device sync jobs.
pub mod Job
pub mod Sql
pub mod Queries
pub mod AdminQueries
pub mod Recovery
pub mod Service
pub mod Worker
pub mod Admin
pub mod Valid
pub mod Observe
pub mod Lifecycle
pub mod Ownership
pub mod Retention
pub mod ClaimOrder

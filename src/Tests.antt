-- ===== src/Tests.antt =====
-- Runs of the models at concrete inputs, and the theorems at inputs that meet their hypotheses.
mod Queue
mod Work
mod Common
mod Approvals
mod Multipart
mod Concurrency
mod Permissions

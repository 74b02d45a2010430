-- ===== src/Concurrency.antt =====
-- src/common: how often a device is tried again, and how many face syncs run at once.
pub mod Backoff
pub mod Slots
pub mod Workers
pub mod Tails

-- ===== src/Outbox.antt =====
-- The outbox: packages/testkit/src/stores/memory-outbox-store.ts and outbox-validation.ts.
pub mod Message
pub mod State
pub mod Leases
pub mod Retention

-- ===== src/Guard.antt =====
-- packages/guard-memory/src/guard: the attempt guard that keeps its failures in memory.
pub mod Heap
pub mod Attempts
pub mod Pruning
pub mod Bounds
pub mod Lockout

-- ===== src/Tests.antt =====
-- The theorems at concrete stores.
mod Data
mod Memory
mod Transactions
mod Outbox
mod Core
mod Ports
mod Guard
mod Token

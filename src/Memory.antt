-- ===== src/Memory.antt =====
-- The in-memory stores: packages/testkit/src/stores.
pub mod Expiry
pub mod RecordValidation
pub mod State
pub mod Action
pub mod Accounts
pub mod Identities
pub mod Credentials
pub mod Sessions
pub mod Challenges
pub mod Merge
pub mod Directory
pub mod Cleanup
pub mod Moves
pub mod Steps
pub mod WellFormed
pub mod History
pub mod World
pub mod Transaction

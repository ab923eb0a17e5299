-- ===== src/Core.antt =====
-- packages/core/src: the operations of the core over its ports.
pub mod Errors
pub mod Views
pub mod Run
pub mod Ports
pub mod Validation
pub mod Policy
pub mod Attempts
pub mod Sessions
pub mod Accounts

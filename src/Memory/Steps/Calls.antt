-- ===== src/Memory/Steps/Calls.antt =====
-- Every call that can change the stores makes only the changes of `Step`.
mod Accounts
mod Credentials
mod Sessions
mod Challenges
pub use Accounts.*
pub use Credentials.*
pub use Sessions.*
pub use Challenges.*

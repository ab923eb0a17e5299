-- ===== src/Contracts.antt =====
-- The data that the packages exchange: packages/contracts/src.
pub mod Errors
pub mod Values
pub mod Json
pub mod Records
pub mod Auth

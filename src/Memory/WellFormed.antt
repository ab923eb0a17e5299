-- ===== src/Memory/WellFormed.antt =====
-- What holds of a `MemoryState` between calls: every record is valid and stands under its own key,
-- every index leads to the one record that it names, and every owner is there.
mod Defs
mod Moves
mod Owners
mod Preserved
mod Distinct
pub use Defs.*
pub use Preserved.*
pub use Distinct.*

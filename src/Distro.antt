-- ===== src/Distro.antt =====
-- The module x/distro.
pub mod Params
pub mod Outcome
pub mod Months
pub mod Halving
pub mod Limits
pub mod Keeper
pub mod Module
mod Tests

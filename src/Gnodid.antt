-- ===== src/Gnodid.antt =====
-- The commands of cmd/gnodid/cmd that do work of their own.
pub mod Strings
pub mod InPlace
pub mod Init
pub mod Options
pub mod Root
pub mod MultiNode
mod Tests

-- ===== src/Gnodid/Tests.antt =====
-- The theorems about the commands at concrete inputs.
mod InPlace
mod Options
mod Root
mod Init
mod MultiNode
mod Copies
mod Collected

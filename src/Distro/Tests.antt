-- ===== src/Distro/Tests.antt =====
-- The theorems about x/distro at concrete inputs, and runs of its code.
mod Dates
mod Chain
mod Schedule
mod Messages
mod Provide
mod Json
mod Genesis

-- ===== src/App.antt =====
-- The application of app/: what its own code decides.
pub mod Ante
pub mod Upgrades
pub mod Accounts
pub mod Blocks
pub mod Orders
pub mod Export
pub mod Genesis
pub mod Mempool
pub mod Keepers
pub mod GenesisAccount
mod Tests

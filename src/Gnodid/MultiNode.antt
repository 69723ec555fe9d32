-- ===== src/Gnodid/MultiNode.antt =====
-- cmd/gnodid/cmd/testnet_multi_node.go: the directories of a testnet of several validators.
pub mod Env
pub mod Args
pub mod Ports
pub mod Node
pub mod Genesis
pub mod Files
pub mod Run

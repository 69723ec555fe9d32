-- ===== src/Gnodid/Init/Written.antt =====
-- The genesis file that a successful `init` has written.
use gnodi.Base.{◌≡◌, false, some}
use gnodi.Base.Text.{Bytes}
use gnodi.Base.Result.{Result, ok}
use gnodi.Base.Int.{pos, ◌≤ℤ◌}
use gnodi.Gnodid.Init.{Node, Flags, AppGenesis, not_there, mnemonic_of, read_genesis, finish_init}

module _ (k : Node) where
  open k use {State, Other, genesis_file, stat}

  -- What was written, the state in which the file was looked up, and the one in which it was written.
  pub record IsWritten (flags : Flags) (chain_id state : Bytes) (s s' : State) : Type 0 where
    pub read : State
    pub found : AppGenesis Other
    pub genesis : AppGenesis Other
    pub absent : flags.overwrite ≡ false → stat genesis_file s ≡ not_there
    pub held : read_genesis k s ≡ (ok found, read)
    pub exported : k.export_genesis_file genesis genesis_file read ≡ (some tt, s')
    pub chain : genesis.chain_id ≡ chain_id
    pub height : pos 1 ≤ℤ genesis.initial_height
    pub contents : (genesis.app_state ≡ state) × (k.default_genesis_json s ≡ some state)

  -- The run of `init` from `s` to `s'`: the state in which the file was looked up, right after the
  -- mnemonic and the node's files, the one in which the genesis was written, and the rest from there.
  pub record IsInitialized (flags : Flags) (moniker chain_id : Bytes) (s s' : State) : Type 0 where
    pub mnemonic : Bytes
    pub started : State
    pub looked : State
    pub written : State
    pub node_id : Bytes
    pub state : Bytes
    pub has_mnemonic : mnemonic_of k flags s ≡ (ok mnemonic, started)
    pub has_node_files : k.initialize_node_files mnemonic started ≡ (some node_id, looked)
    pub genesis : IsWritten flags chain_id state looked written
    pub finished : finish_init k moniker chain_id node_id state written ≡ (ok tt, s')

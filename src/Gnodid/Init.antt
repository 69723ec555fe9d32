-- ===== src/Gnodid/Init.antt =====
-- cmd/gnodid/cmd/init.go: the files of a new node. Its output and its configuration file are the calls of
-- the record `Node`; the genesis file is one path of the disk.
pub mod Written
use gnodi.Base.{
  ℕ, Bool, true, false, not, ◌&&◌, List, [], ◌∷◌, ◌++◌, Option, some, none, ⊤, if◌then◌else◌,
}
use gnodi.Base.Text.{Bytes, bytes, bytes_equal}
use gnodi.Base.Result.{Result, ok, err}
use gnodi.Base.Action.{Action, Call, ◌>>=◌, ◌>>◌, pure, stop, gets, try, have}
use gnodi.Base.Int.{ℤ, pos, negsuc, ltb_ℤ}

-- `AppGenesis` with the consensus parameters: those of the default, and the key types.
pub record AppGenesis (Other : Type 0) : Type 0 where
  pub app_name : Bytes
  pub app_version : Bytes
  pub chain_id : Bytes
  pub app_state : Bytes
  pub initial_height : ℤ
  pub pub_key_types : List Bytes
  pub other : Other

-- What `os.Stat` says of a file.
pub data Stat : Type 0 where
  there not_there unreadable : Stat

pub data InitError : Type 0 where
  no_mnemonic invalid_mnemonic no_node_files already_exists not_marshalled not_stated not_read :
      InitError
  no_key_algo not_exported not_printed : InitError

-- The flags; nothing where the code takes the error of reading one.
pub record Flags : Type 0 where
  pub chain_id : Bytes
  pub recover : Bool
  pub init_height : ℤ
  pub overwrite : Bool
  pub consensus_key_algo : Option Bytes

pub record Node : Type 1 where
  pub State : Type 0
  pub Other : Type 0
  pub client_chain_id : Bytes
  pub version_name : Bytes
  pub version_number : Bytes
  pub genesis_file : Bytes
  -- `unsafe.Str(6)`, `input.GetString`, `bip39.IsMnemonicValid`
  pub random_string : ℕ → State → Bytes
  pub read_mnemonic : Call State Bytes
  pub is_mnemonic_valid : Bytes → Bool
  -- `InitializeNodeValidatorFilesFromMnemonic` gives the node's id
  pub initialize_node_files : Bytes → Call State Bytes
  pub stat : Bytes → State → Stat
  pub default_genesis_json : State → Option Bytes
  pub empty_genesis : AppGenesis Other
  pub app_genesis_from_file : Bytes → Call State (AppGenesis Other)
  -- the default consensus parameters, in place of those of the genesis
  pub default_params : Other → Other
  pub export_genesis_file : AppGenesis Other → Bytes → Call State ⊤
  pub marshal_summary : (chain_id node_id app_state : Bytes) → Option Bytes
  pub write_config_file : Bytes → State → State
  pub print : Bytes → Call State ⊤

module _ (k : Node) where
  open k use {State, Other, genesis_file, stat}

  abbrev pub Step : Type 0 → Type 0
  Step A = Action InitError State A

  -- The flag, then the client's chain id, then a random one.
  unfoldable pub chain_id_of : Flags → State → Bytes
  chain_id_of flags s =
      if not (bytes_equal flags.chain_id [])
      then flags.chain_id
      else if not (bytes_equal k.client_chain_id [])
      then k.client_chain_id
      else bytes "test-chain-" ++ k.random_string 6 s

  unfoldable pub mnemonic_of : Flags → Step Bytes
  mnemonic_of flags =
      if flags.recover
      then (do
        value ← try k.read_mnemonic no_mnemonic
        if k.is_mnemonic_valid value then pure value else stop invalid_mnemonic)
      else pure []

  unfoldable pub height_of : Flags → ℤ
  height_of flags = if ltb_ℤ flags.init_height (pos 1) then pos 1 else flags.init_height

  -- `!overwrite && !os.IsNotExist(err)`
  abbrev pub refuses : Bool → Stat → Bool
  refuses overwrite not_there = false
  refuses overwrite _ = not overwrite

  unfoldable pub check_absent : Flags → Step ⊤
  check_absent flags = do
    found ← gets (stat genesis_file)
    if refuses flags.overwrite found then stop already_exists else pure tt

  -- The genesis that is in the file, or an empty one.
  unfoldable pub read_genesis : Step (AppGenesis Other)
  read_genesis s = elim (stat genesis_file s) [
    | there ↦ try (k.app_genesis_from_file genesis_file) not_read s
    | not_there ↦ (ok k.empty_genesis, s)
    | unreadable ↦ (err not_stated, s)
  ]

  unfoldable pub fill_genesis : Flags → Bytes → Bytes → Bytes → AppGenesis Other → AppGenesis Other
  fill_genesis flags chain_id state key genesis = record genesis {
    app_name = k.version_name;
    app_version = k.version_number;
    chain_id = chain_id;
    app_state = state;
    initial_height = height_of flags;
    pub_key_types = key ∷ [];
    other = k.default_params genesis.other;
  }

  unfoldable pub put_genesis : Flags → Bytes → Bytes → AppGenesis Other → Step Bytes
  put_genesis flags chain_id state genesis = do
    key ← have flags.consensus_key_algo no_key_algo
    try (k.export_genesis_file (fill_genesis flags chain_id state key genesis) genesis_file)
        not_exported
    pure state

  unfoldable pub make_genesis : Flags → Bytes → Step Bytes
  make_genesis flags chain_id = do
    json ← gets k.default_genesis_json
    state ← have json not_marshalled
    genesis ← read_genesis
    put_genesis flags chain_id state genesis

  -- From the check of the file to the genesis that is written to it.
  unfoldable pub write_genesis : Flags → Bytes → Step Bytes
  write_genesis flags chain_id = do check_absent flags; make_genesis flags chain_id

  unfoldable pub finish_init : Bytes → Bytes → Bytes → Bytes → Step ⊤
  finish_init moniker chain_id node_id state = do
    out ← have (k.marshal_summary chain_id node_id state) not_printed
    λ s. (ok tt, k.write_config_file moniker s)
    try (k.print out) not_printed

  -- With the chain id and the mnemonic.
  unfoldable pub init_node_files : Flags → Bytes → Bytes → Bytes → Step ⊤
  init_node_files flags moniker chain_id mnemonic = do
    node_id ← try (k.initialize_node_files mnemonic) no_node_files
    state ← write_genesis flags chain_id
    finish_init moniker chain_id node_id state

  unfoldable pub run_init : Flags → Bytes → Step ⊤
  run_init flags moniker = do
    chain_id ← gets (chain_id_of flags)
    mnemonic ← mnemonic_of flags
    init_node_files flags moniker chain_id mnemonic

-- ===== src/Gnodid/MultiNode/Env.antt =====
-- The types of testnet_multi_node.go, and what it calls outside the repository.
use gnodi.Base.{ℕ, Bool, List, Option, ⊤}
use gnodi.Base.Text.{Bytes}
use gnodi.Base.Action.{Call}
use gnodi.Base.Int.{ℤ}

-- `initArgs`; a map is the function of its lookups.
pub record InitArgs (Coin : Type 0) : Type 0 where
  pub algo : Bytes
  pub chain_id : Bytes
  pub keyring_backend : Bytes
  pub min_gas_prices : Bytes
  pub node_dir_prefix : Bytes
  pub num_validators : ℤ
  pub output_dir : Bytes
  pub starting_ip_address : Bytes
  pub validators_stakes_amount : ℕ → Option Coin
  pub ports : ℕ → Option Bytes

-- The fields of the node's configuration that the code writes, and all others as one.
pub record NodeConfig (Other : Type 0) : Type 0 where
  pub root_dir : Bytes
  pub moniker : Bytes
  pub rpc_listen_address : Bytes
  pub persistent_peers : Bytes
  pub allow_duplicate_ip : Bool
  pub p2p_listen_address : Bytes
  pub proxy_app : Bytes
  pub prometheus_listen_addr : Bytes
  pub prometheus : Bool
  pub other : Other

-- The same for the application's configuration.
pub record AppConfig (Other : Type 0) : Type 0 where
  pub min_gas_prices : Bytes
  pub api_enable : Bool
  pub enable_hostname_label : Bool
  pub telemetry_enabled : Bool
  pub prometheus_retention_time : ℕ
  pub grpc_address : Bytes
  pub api_address : Bytes
  pub other : Other

pub record Balance (Coin : Type 0) : Type 0 where
  pub address : Bytes
  pub coins : List Coin

pub record BankGenesis (Coin Other : Type 0) : Type 0 where
  pub balances : List (Balance Coin)
  pub supply : List Coin
  pub other : Other

-- `GenesisDoc`, whose `Validators` are nil.
pub record GenesisDoc : Type 0 where
  pub chain_id : Bytes
  pub app_state : Bytes

pub data InitError : Type 0 where
  failed panicked : InitError

-- What the code calls. Nothing stands for an error, or for a panic of a `Must` function.
pub record Env : Type 1 where
  pub State : Type 0
  pub Coin : Type 0
  pub NodeOther : Type 0
  pub AppOther : Type 0
  pub BankOther : Type 0
  pub AuthGenesis : Type 0
  pub GenState : Type 0
  pub Account : Type 0
  pub PubKey : Type 0
  pub Addr : Type 0
  pub Keyring : Type 0
  pub Algo : Type 0
  pub Msg : Type 0
  pub Builder : Type 0
  -- texts
  pub new_int_from_string : Bytes → Option ℤ
  pub default_bond_denom : Bytes
  pub address_text : Addr → Bytes
  pub val_address_text : Addr → Bytes
  -- `sdk.NewCoin`, which panics on what is not valid
  pub new_coin : Bytes → ℤ → Option Coin
  pub tokens_from_consensus_power : ℕ → ℤ
  pub sort : List Coin → List Coin
  pub add : List Coin → List Coin → List Coin
  -- `path/filepath`
  pub join : List Bytes → Bytes
  pub base : Bytes → Bytes
  pub abs : Bytes → State → Option Bytes
  pub rel : Bytes → Bytes → Option Bytes
  pub is_abs : Bytes → Bool
  -- `math/rand` from a seed of the clock: `Intn bound`, drawn as number `i`
  pub intn : State → (bound i : ℕ) → ℕ
  -- the configurations
  pub set_root : Bytes → NodeOther → NodeOther
  pub genesis_file : NodeConfig NodeOther → Bytes
  pub default_app_config : AppConfig AppOther
  pub write_app_config : Bytes → AppConfig AppOther → Call State ⊤
  pub write_node_config : Bytes → NodeConfig NodeOther → Call State ⊤
  -- files; `io.Copy` from the source to the destination reads what the source holds then
  pub mkdir_all : Bytes → Call State ⊤
  pub remove_all : Bytes → State → State
  pub write_bytes : Bytes → Bytes → Call State ⊤
  pub open_file : Bytes → Call State ⊤
  pub create : Bytes → Call State ⊤
  pub copy : (dst src : Bytes) → Call State ℕ
  pub sync : Bytes → Call State ⊤
  -- keys and transactions; a message has the description and the rates that the code gives
  pub initialize_node_validator_files : NodeConfig NodeOther → Call State (Bytes × PubKey)
  pub new_keyring : Bytes → Bytes → Call State Keyring
  pub new_signing_algo : Keyring → Bytes → Option Algo
  pub generate_save_coin_key : Keyring → Bytes → Algo → Call State (Addr × Bytes)
  pub marshal_secret : Bytes → Option Bytes
  pub new_msg_create_validator : Bytes → PubKey → Coin → Bytes → Option Msg
  pub set_msgs : Msg → Option Builder
  pub set_memo : Bytes → Builder → Builder
  pub sign : (chain_id memo : Bytes) → Keyring → (name : Bytes) → Builder → Call State Builder
  pub encode_tx : Builder → Option Bytes
  -- genesis
  pub default_genesis : GenState
  pub auth_genesis : GenState → Option AuthGenesis
  pub bank_genesis : GenState → Option (BankGenesis Coin BankOther)
  pub put_auth_genesis : AuthGenesis → GenState → GenState
  pub put_bank_genesis : BankGenesis Coin BankOther → GenState → GenState
  pub new_base_account : Addr → Account
  pub pack_accounts : List Account → AuthGenesis → Option AuthGenesis
  pub sanitize_genesis_balances : List (Balance Coin) → List (Balance Coin)
  pub marshal_genesis : GenState → Option Bytes
  pub save_as : GenesisDoc → Bytes → Call State ⊤
  pub app_genesis_from_file : Bytes → Call State Bytes
  pub gen_app_state :
      NodeConfig NodeOther
      → (chain_id gentxs_dir node_id : Bytes) → PubKey
      → (app_genesis : Bytes) → Call State Bytes
  pub now : State → ℕ
  pub export_genesis_file_with_time : (file chain_id app_state : Bytes) → (time : ℕ) → Call State ⊤

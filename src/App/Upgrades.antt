-- ===== src/App/Upgrades.antt =====
-- app/upgrades.go and the genesis states of app/genesis.go: the handler of the upgrade that brings the
-- EVM modules in, and the stores that are added for it. The keepers, the module manager, the names of
-- the modules and the type URLs are outside the repository: the record `Chain` holds them.
pub mod Handler
use gnodi.Base.{
  ap, ℕ, Bool, true, false, not, ◌&&◌, Option, none, some, List, [], ◌∷◌, map, if◌then◌else◌,
}
use gnodi.Base.Text.{Bytes, bytes, bytes_equal}
use gnodi.Base.Result.{Result, ok, err, ◌>>=◌}

abbrev pub evm_upgrade_name : Bytes
evm_upgrade_name = bytes "evm-upgrade"

pub data GroupMsg : Type 0 where
  create_group create_group_with_policy update_group_members update_group_admin : GroupMsg
  update_group_metadata create_group_policy update_group_policy_admin : GroupMsg
  update_group_policy_decision_policy update_group_policy_metadata : GroupMsg
  submit_proposal withdraw_proposal vote exec leave_group : GroupMsg

-- `groupMsgTypeURLs`, in its order.
abbrev pub group_msgs : List GroupMsg
group_msgs =
    create_group ∷ create_group_with_policy ∷ update_group_members ∷ update_group_admin
    ∷ update_group_metadata ∷ create_group_policy ∷ update_group_policy_admin
    ∷ update_group_policy_decision_policy ∷ update_group_policy_metadata ∷ submit_proposal
    ∷ withdraw_proposal ∷ vote ∷ exec ∷ leave_group ∷ []

pub data Precompile : Type 0 where
  p256 bech32 staking distribution vesting bank gov slashing : Precompile

abbrev pub active_precompiles : List Precompile
active_precompiles = p256 ∷ bech32 ∷ staking ∷ distribution ∷ vesting ∷ bank ∷ gov ∷ slashing ∷ []

pub record Metadata : Type 0 where
  pub description : Bytes
  pub base : Bytes
  pub denom_units : List (Bytes × ℕ)
  pub name : Bytes
  pub symbol : Bytes
  pub display : Bytes

abbrev pub gnod_metadata : Metadata
gnod_metadata = record {
  description = bytes "Gnodi native token";
  base = bytes "uGNOD";
  denom_units = (bytes "uGNOD", 0) ∷ (bytes "GNOD", 6) ∷ [];
  name = bytes "Gnodi";
  symbol = bytes "GNOD";
  display = bytes "GNOD";
}

-- The parameters that the code sets; the others keep what the modules' defaults have, `rest`.
pub record EvmGenesis (Rest Preinstalls : Type 0) : Type 0 where
  pub evm_denom : Bytes
  pub extended_denom : Option Bytes
  pub active_static_precompiles : List Bytes
  pub preinstalls : Preinstalls
  pub rest : Rest

pub record FeeParams (Rest : Type 0) : Type 0 where
  pub no_base_fee : Bool
  pub base_fee : ℕ
  pub min_gas_price : ℕ
  pub rest : Rest

pub data Failure : Type 0 where
  failed panicked : Failure

abbrev pub VersionMap : Type 0
VersionMap = Bytes → Option ℕ

-- `fromVM[name] = version`
abbrev pub set_version : VersionMap → Bytes → ℕ → VersionMap
set_version vm name version = λ other. if bytes_equal other name then some version else vm other

pub record Chain : Type 1 where
  pub State : Type 0
  pub EvmRest : Type 0
  pub Preinstalls : Type 0
  pub FeeRest : Type 0
  pub type_url : GroupMsg → Bytes
  pub address : Precompile → Bytes
  pub evm_name : Bytes
  pub fee_market_name : Bytes
  pub erc20_name : Bytes
  pub precisebank_name : Bytes
  pub default_evm : EvmGenesis EvmRest Preinstalls
  pub default_fee_params : FeeParams FeeRest
  pub default_preinstalls : Preinstalls
  pub coin_denom : Bytes
  pub coin_extended_denom : Bytes
  pub set_denom_metadata : Metadata → State → State
  pub init_evm : EvmGenesis EvmRest Preinstalls → State → Result Failure State
  pub init_fee_market : FeeParams FeeRest → State → Result Failure State
  pub get_fee_params : State → FeeParams FeeRest
  pub set_fee_params : FeeParams FeeRest → State → Result Failure State
  pub disable : Bytes → State → Result Failure State
  pub is_disabled : Bytes → State → Bool
  pub run_migrations : VersionMap → State → Result Failure (VersionMap × State)

module _ (c : Chain) where
  open c use {State, EvmRest, Preinstalls, FeeRest, type_url, address, evm_name, fee_market_name}
  open c use {set_denom_metadata, init_evm, init_fee_market, get_fee_params, set_fee_params}
  open c use {disable, run_migrations}

  unfoldable pub new_evm_genesis_state : EvmGenesis EvmRest Preinstalls
  new_evm_genesis_state = record c.default_evm {
    evm_denom = c.coin_denom;
    extended_denom = some c.coin_extended_denom;
    active_static_precompiles = map address active_precompiles;
    preinstalls = c.default_preinstalls;
  }

  unfoldable pub new_fee_market_genesis_state : FeeParams FeeRest
  new_fee_market_genesis_state = record c.default_fee_params {
    no_base_fee = true;
    base_fee = 0;
    min_gas_price = 0;
  }

  -- The loop over the URLs.
  unfoldable pub disable_all : List GroupMsg → State → Result Failure State
  disable_all [] s = ok s
  disable_all (m ∷ ms) s = do s ← disable (type_url m) s; disable_all ms s

  -- The version map that the migrations start from.
  unfoldable pub marked : VersionMap → VersionMap
  marked vm = set_version (set_version vm evm_name 1) fee_market_name 1

  -- The upgrade handler.
  unfoldable pub evm_upgrade : VersionMap → State → Result Failure (VersionMap × State)
  evm_upgrade from_vm s = do
    let s = set_denom_metadata gnod_metadata s
    s ← init_evm new_evm_genesis_state s
    s ← init_fee_market new_fee_market_genesis_state s
    s ← set_fee_params (record (get_fee_params s) { min_gas_price = 0 }) s
    s ← disable_all group_msgs s
    run_migrations (marked from_vm) s

  -- The stores that are added, at the height of the upgrade on disk, unless that height is skipped.
  unfoldable pub store_upgrades : Bytes × ℕ → (ℕ → Bool) → Option (ℕ × List Bytes)
  store_upgrades (name, height) is_skip_height =
      if bytes_equal name evm_upgrade_name && not (is_skip_height height)
      then some (height, evm_name ∷ fee_market_name ∷ c.erc20_name ∷ c.precisebank_name ∷ [])
      else none

  -- What is registered: the handler under its name, and the store loader for added stores.
  pub record Registered : Type 0 where
    pub name : Bytes
    pub handler : VersionMap → State → Result Failure (VersionMap × State)
    pub store_loader : Option (ℕ × List Bytes)

  -- Without a value for `ReadUpgradeInfoFromDisk` the code panics.
  unfoldable pub register_upgrade_handlers : Option (Bytes × ℕ) → (ℕ → Bool) → Option Registered
  register_upgrade_handlers none is_skip_height = none
  register_upgrade_handlers (some upgrade_info) is_skip_height = some (record {
    name = evm_upgrade_name;
    handler = evm_upgrade;
    store_loader = store_upgrades upgrade_info is_skip_height;
  })

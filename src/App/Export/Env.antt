-- ===== src/App/Export/Env.antt =====
-- The rows that the export rewrites, and the calls of the keepers, the application and the codec. A
-- row keeps the fields that the code does not touch in its `rest`.
use gnodi.Base.{ℕ, Bool, List, Option, ⊤}
use gnodi.Base.Text.{Bytes}
use gnodi.Base.Action.{Call}

pub record Entry (Rest : Type 0) : Type 0 where
  pub creation_height : ℕ
  pub rest : Rest

pub record Redelegation (Rest : Type 0) : Type 0 where
  pub key : Bytes
  pub entries : List (Entry Rest)

pub record Unbonding (Rest : Type 0) : Type 0 where
  pub key : Bytes
  pub entries : List (Entry Rest)

pub record Validator (Rest : Type 0) : Type 0 where
  pub unbonding_height : ℕ
  pub jailed : Bool
  pub rest : Rest

pub record SigningInfo (Rest : Type 0) : Type 0 where
  pub address : Bytes
  pub start_height : ℕ
  pub rest : Rest

pub record FeePool (Coins Rest : Type 0) : Type 0 where
  pub community_pool : Coins
  pub rest : Rest

pub record Delegation : Type 0 where
  pub validator : Bytes
  pub delegator : Bytes

pub record ExportedApp (Json Validators Params : Type 0) : Type 0 where
  pub app_state : Json
  pub validators : Validators
  pub height : ℕ
  pub consensus_params : Params

pub data Failure : Type 0 where
  panicked failed : Failure

pub record Keepers : Type 1 where
  pub State : Type 0
  pub Rest : Type 0
  pub Coins : Type 0
  pub Genesis : Type 0
  pub Json : Type 0
  pub Validators : Type 0
  pub Params : Type 0
  -- the address codecs of the interface registry, and that of the staking keeper
  pub registry_val_to_bytes : Bytes → Option Bytes
  pub registry_acc_to_bytes : Bytes → Option Bytes
  pub val_address_to_bytes : Bytes → Option Bytes
  pub val_address_to_string : Bytes → Option Bytes
  -- `IterateValidators`, by the operators, and the distribution keeper
  pub validators : State → Option (List Bytes)
  pub withdraw_commission : ℕ → Bytes → Call State ⊤
  pub delegations : State → Option (List Delegation)
  pub withdraw_rewards : ℕ → Bytes → Bytes → Call State ⊤
  pub delete_slash_events : ℕ → State → State
  pub delete_historical_rewards : ℕ → State → State
  pub outstanding_rewards : ℕ → Bytes → Call State Coins
  pub get_fee_pool : Call State (FeePool Coins Rest)
  pub set_fee_pool : FeePool Coins Rest → Call State ⊤
  pub add : Coins → Coins → Coins
  pub after_validator_created : ℕ → Bytes → Call State ⊤
  pub before_delegation_created : ℕ → Bytes → Bytes → Call State ⊤
  pub after_delegation_modified : ℕ → Bytes → Bytes → Call State ⊤
  -- the staking keeper and its store
  pub redelegations : State → Option (List (Redelegation Rest))
  pub set_redelegation : Redelegation Rest → Call State ⊤
  pub unbondings : State → Option (List (Unbonding Rest))
  pub set_unbonding : Unbonding Rest → Call State ⊤
  pub validator_keys : State → List Bytes
  pub get_validator : Bytes → State → Option (Validator Rest)
  pub set_validator : Validator Rest → Call State ⊤
  pub close_iterator : State → Bool
  pub apply_validator_updates : Call State ⊤
  -- the slashing keeper
  pub signing_infos : State → Option (List (SigningInfo Rest))
  pub set_signing_info : SigningInfo Rest → Call State ⊤
  -- the application
  pub last_block_height : State → ℕ
  pub export_genesis_for_modules : List Bytes → State → Option Genesis
  pub marshal_indent : Genesis → Option Json
  pub write_validators : State → Option Validators
  pub consensus_params : State → Params

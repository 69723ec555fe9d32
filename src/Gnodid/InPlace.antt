-- ===== src/Gnodid/InPlace.antt =====
-- cmd/gnodid/cmd/testnet.go: the in-place testnet, which replaces the validators of a chain by one new
-- validator and funds accounts. `handleErr` prints an error and leaves the program: `exited`.
pub mod Args
pub mod Funding
pub mod Replacing
use gnodi.Base.{ℕ, Bool, true, false, List, [], ◌∷◌, ◌++◌, Option, some, none, ⊤, if◌then◌else◌}
use gnodi.Base.Text.{Bytes, bytes, bytes_equal}
use gnodi.Base.Result.{Result, ok, err}
use gnodi.Base.Action.{Action, Call, ◌>>=◌, ◌>>◌, pure, stop, gets, try, ignore, have, each}
use gnodi.Base.Int.{ℤ, pos, ◌-ℤ◌}
use Args.{ValArgs}

abbrev pub val_voting_power : ℕ
val_voting_power = 900_000_000_000_000

pub data Status : Type 0 where
  bonded : Status

-- The fields of the new validator that are set; the rates are decimal texts.
pub record NewValidator (Any : Type 0) : Type 0 where
  pub operator_address : Bytes
  pub consensus_pubkey : Any
  pub jailed : Bool
  pub status : Status
  pub tokens : ℕ
  pub delegator_shares : Bytes
  pub moniker : Bytes
  pub rate : Bytes
  pub max_rate : Bytes
  pub max_change_rate : Bytes
  pub min_self_delegation : ℕ

pub record SigningInfo : Type 0 where
  pub address : Bytes
  pub start_height : ℤ
  pub tombstoned : Bool

-- The parts of the staking store that are emptied.
pub data Range : Type 0 where
  by_power last_power validators unbonding_queue : Range

pub data Exit : Type 0 where
  exited : Exit

pub record Keepers : Type 1 where
  pub State : Type 0
  pub Any : Type 0
  pub Coins : Type 0
  pub new_any : Bytes → Option Any
  pub val_address_to_bytes : Bytes → Option Bytes
  pub acc_address_to_bytes : Bytes → Option Bytes
  pub cons_address_text : Bytes → Bytes
  -- the staking store: the keys of a range, whether its iterator fails, and the deletion of a key
  pub keys : Range → State → List Bytes
  pub iterator_fails : Range → State → Bool
  pub delete : Bytes → State → State
  pub set_validator : NewValidator Any → Call State ⊤
  pub set_validator_by_cons_addr : NewValidator Any → Call State ⊤
  pub set_validator_by_power_index : NewValidator Any → Call State ⊤
  pub set_last_validator_power : Bytes → ℕ → Call State ⊤
  pub after_validator_created : Bytes → Call State ⊤
  -- the four records of the distribution keeper, with the values that the code gives
  pub set_historical_rewards : Bytes → Call State ⊤
  pub set_current_rewards : Bytes → Call State ⊤
  pub set_accumulated_commission : Bytes → Call State ⊤
  pub set_outstanding_rewards : Bytes → Call State ⊤
  pub set_signing_info : Bytes → SigningInfo → Call State ⊤
  pub bond_denom : State → Option Bytes
  pub new_coins : Bytes → ℕ → Coins
  pub mint_coins : Coins → Call State ⊤
  pub send_coins : Bytes → Coins → Call State ⊤
  pub last_block_height : State → ℕ

module _ (k : Keepers) where
  open k use {
    State, Any, Coins, new_any, val_address_to_bytes, acc_address_to_bytes, keys, iterator_fails,
    delete,
  }
  open k use {bond_denom, new_coins, mint_coins, send_coins, last_block_height}

  abbrev Step : Type 0
  Step = Action Exit State ⊤

  abbrev pub handle : {A : Type 0} → Call State A → Action Exit State A
  handle f = try f exited

  -- One loop over an iterator, which reads its keys first.
  unfoldable pub delete_range : Range → Step
  delete_range r = do found ← gets (keys r); each (λ key s. (ok tt, delete key s)) found

  unfoldable pub open_iterator : Range → Step
  open_iterator r s = if iterator_fails r s then (err exited, s) else (ok tt, s)

  unfoldable pub remove_validators : Step
  remove_validators = do
    open_iterator by_power
    delete_range by_power
    open_iterator last_power
    delete_range last_power
    delete_range validators
    delete_range unbonding_queue

  unfoldable pub new_validator : ValArgs → Any → NewValidator Any
  new_validator args key = record {
    operator_address = args.new_operator_address;
    consensus_pubkey = key;
    jailed = false;
    status = bonded;
    tokens = val_voting_power;
    delegator_shares = bytes "10000000";
    moniker = bytes "Testnet Validator";
    rate = bytes "0.05";
    max_rate = bytes "0.1";
    max_change_rate = bytes "0.05";
    min_self_delegation = 1;
  }

  -- The staking and distribution records of the new validator.
  unfoldable pub add_validator : NewValidator Any → Bytes → Step
  add_validator v addr = do
    handle (k.set_validator v)
    handle (k.set_validator_by_cons_addr v)
    handle (k.set_validator_by_power_index v)
    handle (k.set_last_validator_power addr 0)
    handle (k.after_validator_created addr)
    handle (k.set_historical_rewards addr)
    handle (k.set_current_rewards addr)
    handle (k.set_accumulated_commission addr)
    handle (k.set_outstanding_rewards addr)

  -- `LastBlockHeight() - 1`; the error of the call is dropped.
  unfoldable pub add_signing_info : Bytes → Step
  add_signing_info cons s =
      ignore
        (k.set_signing_info cons (record {
          address = k.cons_address_text cons;
          start_height = pos (last_block_height s) -ℤ pos 1;
          tombstoned = false;
        }))
        s

  unfoldable pub fund_account : Coins → Bytes → Step
  fund_account coins account = do
    handle (mint_coins coins)
    addr ← have (acc_address_to_bytes account) exited
    handle (send_coins addr coins)

  unfoldable pub fund_accounts : List Bytes → Step
  fund_accounts accounts = do
    found ← gets bond_denom
    denom ← have found exited
    each (fund_account (new_coins denom 1_000_000_000)) accounts

  unfoldable pub init_app_for_testnet : ValArgs → Step
  init_app_for_testnet args = do
    key ← have (new_any args.new_val_pub_key) exited
    addr ← have (val_address_to_bytes args.new_operator_address) exited
    remove_validators
    add_validator (new_validator args key) addr
    add_signing_info args.new_val_addr
    fund_accounts args.accounts_to_fund

-- ===== src/Distro/Keeper.antt =====
-- The keeper of x/distro/keeper: the handlers `Mint` and `UpdateParams`, the query, genesis in and
-- out. A handler takes the state and returns how it ended with the state that it left behind; that
-- the SDK drops the writes of a message that failed is outside this repository.
pub mod Env
pub mod Mint
pub mod Refusal
pub mod Update
pub mod Trace
pub mod Ledger
pub mod OnSchedule
pub mod History
pub mod Due
pub mod Provide
use gnodi.Base.{ℕ, ◌+◌, Bool, true, false, not, ltb, Option, none, some, ⊤}
use gnodi.Base.Text.{Bytes, bytes, bytes_equal}
use gnodi.Distro.Params.{Params, GenesisState, default_genesis, ParamsError}
use gnodi.Distro.Params
use gnodi.Base.Result
use gnodi.Calendar.{Date}
use gnodi.Distro.Outcome.{Outcome, ok, err, panic, Error, or_fail, or_panic, fail_if}
use gnodi.Distro.Outcome.{invalid_signer_address, params_not_initialized, unauthorized}
use gnodi.Distro.Outcome.{max_supply_exceeded, invalid_receiver, bank_failure, store_failure}
use gnodi.Distro.Outcome.{
  invalid_authority_address, invalid_signer, invalid_params, invalid_request,
}
use gnodi.Distro.Outcome.{query_not_found, query_internal}
use gnodi.Distro.Limits.{validate_minting_limits}
use Env.{Action, ◌>>=◌, ◌>>◌, lift, gets, call, Keeper, Stored, found, missing, corrupt}

pub record MsgMint : Type 0 where
  pub amount : ℕ
  pub signer : Bytes

pub record MsgUpdateParams : Type 0 where
  pub authority : Bytes
  pub params : Params

abbrev pub module_name : Bytes
module_name = bytes "distro"

abbrev found_params : Stored → Option Params
found_params (found p) = some p
found_params missing = none
found_params corrupt = none

abbrev of_validation : Result.Result ParamsError ⊤ → Outcome ⊤
of_validation (Result.ok _) = ok tt
of_validation (Result.err e) = err (invalid_params e)

-- `expectedAuthorityStr, _ := k.addressCodec.BytesToString(...)`
abbrev or_empty : Option Bytes → Bytes
or_empty none = bytes ""
or_empty (some s) = s

module _ (k : Keeper) where
  open k use {State, Coins, string_to_bytes, bytes_to_string, params_get, params_set}
  open k use {get_supply, int_uint64, new_coins, mint_coins, send_coins, sdk, runtime}

  -- Both addresses are compared as bytes.
  unfoldable pub is_authorized : Params → Bytes → Bool
  is_authorized params signer_bytes = elim (string_to_bytes params.minting_address) [
    | none ↦ false
    | some minting_bytes ↦ bytes_equal minting_bytes signer_bytes
  ]

  unfoldable pub deposit_coins : Bytes → ℕ → Bytes → Action State ⊤
  deposit_coins to_address amount denom = do
    account ← lift (or_fail (string_to_bytes to_address) invalid_receiver)
    coins ← lift (or_panic (new_coins denom amount))
    call (send_coins module_name account coins) bank_failure

  -- The checks of `Mint` on the supply and the date.
  unfoldable pub check_amount : Date → Params → ℕ → Action State ⊤
  check_amount block_time params amount = do
    supply ← gets (get_supply params.denom)
    current_supply ← lift (or_panic (int_uint64 supply))
    lift (fail_if (ltb params.max_supply (current_supply + amount)) max_supply_exceeded)
    lift (validate_minting_limits runtime block_time current_supply amount params)

  -- The writes of `Mint`, once its checks have passed.
  unfoldable pub mint_and_deposit : Params → ℕ → Action State ⊤
  mint_and_deposit params amount = do
    coins ← lift (or_panic (new_coins params.denom amount))
    call (mint_coins module_name coins) bank_failure
    deposit_coins params.receiving_address amount params.denom

  -- `Mint`, at a block whose time falls on the date `block_time`.
  unfoldable pub mint : Date → MsgMint → Action State ⊤
  mint block_time msg = do
    signer_bytes ← lift (or_fail (string_to_bytes msg.signer) invalid_signer_address)
    stored ← gets params_get
    params ← lift (or_fail (found_params stored) params_not_initialized)
    lift (fail_if (not (is_authorized params signer_bytes)) unauthorized)
    check_amount block_time params msg.amount
    mint_and_deposit params msg.amount

  unfoldable pub update_params : MsgUpdateParams → Action State ⊤
  update_params req = do
    authority ← lift (or_fail (string_to_bytes req.authority) invalid_authority_address)
    lift (
        fail_if (not (bytes_equal k.authority authority))
          (invalid_signer (or_empty (bytes_to_string k.authority))))
    lift (of_validation (Params.validate sdk req.params))
    call (params_set req.params) store_failure

  unfoldable pub init_genesis : GenesisState → Action State ⊤
  init_genesis gs = call (params_set gs.params) store_failure

  -- `ExportGenesis` returns the error of the item.
  unfoldable pub export_genesis : Action State GenesisState
  export_genesis = do
    stored ← gets params_get
    params ← lift (or_fail (found_params stored) store_failure)
    lift (ok (record default_genesis { params = params }))

  -- The answer of the query; a nil request is none.
  abbrev answer : Stored → Outcome Params
  answer (found p) = ok p
  answer missing = err query_not_found
  answer corrupt = err query_internal

  unfoldable pub query_params : Option ⊤ → Action State Params
  query_params none = lift (err invalid_request)
  query_params (some _) = do stored ← gets params_get; lift (answer stored)

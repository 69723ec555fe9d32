-- ===== src/App/Export.antt =====
-- app/export.go: the export of the state for a genesis file, and what it does to the stores first when
-- the new chain starts at height 0. The keepers are outside the repository: `Keepers` holds the calls.
-- An iteration reads its rows before the first call back; without rows it returned an error.
pub mod Env
pub mod ZeroHeight
pub mod Validators
pub mod Prepared
use gnodi.Base.{
  ℕ, ◌+◌, Bool, true, false, not, ◌&&◌, ◌||◌, List, [], ◌∷◌, map, Option, some, none, ⊤,
  if◌then◌else◌,
}
use gnodi.Base.Text.{Bytes, bytes_equal}
use gnodi.Base.Result.{Result, ok, err}
use gnodi.Base.Action.{Action, Call, ◌>>=◌, ◌>>◌, pure, stop, gets, try, ignore, have, each}
use Env.{
  Keepers, Entry, Redelegation, Unbonding, Validator, SigningInfo, FeePool, Delegation, Failure,
  panicked, failed, ExportedApp,
}

-- `allowedAddrsMap[addr]`, and `len(jailAllowedAddrs) > 0`
unfoldable pub is_listed : Bytes → List Bytes → Bool
is_listed a [] = false
is_listed a (b ∷ l) = let rest = is_listed a l in if bytes_equal a b then true else rest

abbrev pub some_given : List Bytes → Bool
some_given [] = false
some_given (_ ∷ _) = true

-- `Entries[i].CreationHeight = 0`
abbrev pub zero_entries : {R : Type 0} → List (Entry R) → List (Entry R)
zero_entries {R} = map {A = Entry R} {B = Entry R} (λ e. record e { creation_height = 0 })

-- What the loop makes of a validator: one that is not listed, with a list, is jailed.
unfoldable pub reset : {R : Type 0} → List Bytes → Bytes → Validator R → Validator R
reset allowed addr v = record v {
  unbonding_height = 0;
  jailed = if some_given allowed && not (is_listed addr allowed) then true else v.jailed;
}

module _ (k : Keepers) where
  open k use {State, Rest, val_address_to_bytes, val_address_to_string}
  open k use {registry_val_to_bytes, registry_acc_to_bytes}
  open k use {validators, withdraw_commission, delegations, withdraw_rewards, delete_slash_events}
  open k use {delete_historical_rewards, outstanding_rewards, get_fee_pool, set_fee_pool, add}
  open k use {after_validator_created, before_delegation_created, after_delegation_modified}
  open k use {redelegations, set_redelegation, unbondings, set_unbonding, validator_keys}
  open k use {get_validator, set_validator, close_iterator, apply_validator_updates}
  open k use {signing_infos, set_signing_info}

  abbrev Step : Type 0
  Step = Action Failure State ⊤

  -- A value, or a panic.
  abbrev must : {A : Type 0} → Option A → Action Failure State A
  must o = have o panicked

  -- The loop over the list of allowed addresses: each has to decode.
  unfoldable pub check_allowed : List Bytes → Step
  check_allowed = each (λ addr. must (registry_val_to_bytes addr) >> pure tt)

  -- The callbacks and loop bodies, on a context of this height.
  unfoldable pub withdraw_validator : ℕ → Bytes → Step
  withdraw_validator height operator = do
    val ← must (val_address_to_bytes operator)
    ignore (withdraw_commission height val)

  unfoldable pub withdraw_delegation : ℕ → Delegation → Step
  withdraw_delegation height d = do
    val ← must (registry_val_to_bytes d.validator)
    del ← must (registry_acc_to_bytes d.delegator)
    ignore (withdraw_rewards height del val)

  unfoldable pub reinit_validator : ℕ → Bytes → Step
  reinit_validator height operator = do
    val ← must (val_address_to_bytes operator)
    rewards ← try (outstanding_rewards height val) panicked
    pool ← try get_fee_pool panicked
    try (set_fee_pool (record pool { community_pool = add pool.community_pool rewards })) panicked
    try (after_validator_created height val) panicked

  unfoldable pub reinit_delegation : ℕ → Delegation → Step
  reinit_delegation height d = do
    val ← must (registry_val_to_bytes d.validator)
    del ← must (registry_acc_to_bytes d.delegator)
    try (before_delegation_created height del val) panicked
    try (after_delegation_modified height del val) panicked

  -- The fee distribution state. The validators and delegations are set up again at height 0.
  unfoldable pub handle_distribution : ℕ → Step
  handle_distribution height = do
    rows ← gets validators
    operators ← must rows
    each (withdraw_validator height) operators
    all ← gets delegations
    dels ← must all
    each (withdraw_delegation height) dels
    λ s. (ok tt, delete_historical_rewards height (delete_slash_events height s))
    again ← gets validators
    operators ← must again
    each (reinit_validator 0) operators
    each (reinit_delegation 0) dels

  unfoldable pub reset_redelegation : Redelegation Rest → Step
  reset_redelegation red =
      try (set_redelegation (record red { entries = zero_entries red.entries })) panicked

  unfoldable pub reset_unbonding : Unbonding Rest → Step
  reset_unbonding ubd =
      try (set_unbonding (record ubd { entries = zero_entries ubd.entries })) panicked

  unfoldable pub reset_validator : List Bytes → Bytes → Step
  reset_validator allowed key = do
    found ← gets (get_validator key)
    v ← must found
    addr ← must (val_address_to_string key)
    try (set_validator (reset allowed addr v)) panicked

  unfoldable pub reset_all_redelegations : Step
  reset_all_redelegations = do
    rows ← gets redelegations
    reds ← must rows
    each reset_redelegation reds

  unfoldable pub reset_all_unbondings : Step
  reset_all_unbondings = do rows ← gets unbondings; ubds ← must rows; each reset_unbonding ubds

  -- The loop of the iterator, which reads its keys first.
  unfoldable pub reset_all_validators : List Bytes → Step
  reset_all_validators allowed = do keys ← gets validator_keys; each (reset_validator allowed) keys

  unfoldable pub reset_signing_info : SigningInfo Rest → Step
  reset_signing_info info = ignore (set_signing_info (record info { start_height = 0 }))

  unfoldable pub reset_all_signing_infos : Step
  reset_all_signing_infos = do
    rows ← gets signing_infos
    infos ← must rows
    each reset_signing_info infos

  -- What follows the loop over the validators: an iterator that does not close ends the preparation.
  unfoldable pub finish : Step
  finish = do
    closed ← gets close_iterator
    if closed then (try apply_validator_updates panicked >> reset_all_signing_infos) else pure tt

  unfoldable pub prep_for_zero_height_genesis : ℕ → List Bytes → Step
  prep_for_zero_height_genesis height allowed = do
    check_allowed allowed
    handle_distribution height
    reset_all_redelegations
    reset_all_unbondings
    reset_all_validators allowed
    finish

  -- `ExportAppStateAndValidators`; with the error of `WriteValidators` there is no result.
  unfoldable pub export_app_state_and_validators :
      Bool
      → List Bytes
      → List Bytes
      → Action Failure State (ExportedApp k.Json k.Validators k.Params)
  export_app_state_and_validators for_zero_height allowed modules = do
    last ← gets k.last_block_height
    if for_zero_height then prep_for_zero_height_genesis last allowed else pure tt
    exported ← gets (k.export_genesis_for_modules modules)
    state ← have exported failed
    json ← have (k.marshal_indent state) failed
    written ← gets k.write_validators
    vals ← have written failed
    params ← gets k.consensus_params
    pure (record {
      app_state = json;
      validators = vals;
      height = if for_zero_height then 0 else last + 1;
      consensus_params = params;
    })

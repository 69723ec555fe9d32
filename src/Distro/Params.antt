-- ===== src/Distro/Params.antt =====
-- x/distro/types/params.go, genesis.go and the struct `Params` of params.pb.go: the parameters of the
-- module, their defaults, and the two validations.
pub mod Validity
use gnodi.Base.{ℕ, Bool, true, false, not, Option, none, some, [], ◌∷◌, ⊤, ◌==◌, if◌then◌else◌}
use gnodi.Base.Text.{Bytes, bytes, bytes_equal}
use gnodi.Base.Result.{Result, ok, err, ◌>>=◌, ◌>>◌, fail_if, require}
use gnodi.Calendar.Text.{parse_date}

pub record Params : Type 0 where
  pub minting_address : Bytes
  pub receiving_address : Bytes
  pub denom : Bytes
  pub max_supply : ℕ
  pub distribution_start_date : Bytes
  pub months_in_halving_period : ℕ

pub record GenesisState : Type 0 where
  pub params : Params

abbrev pub default_minting_address : Bytes
default_minting_address = bytes ""

abbrev pub default_receiving_address : Bytes
default_receiving_address = bytes ""

abbrev pub default_denom : Bytes
default_denom = bytes "uGNOD"

abbrev pub default_max_supply : ℕ
default_max_supply = 35_000_000_000_000_000

abbrev pub default_distribution_start_date : Bytes
default_distribution_start_date = bytes "2025-07-22"

abbrev pub default_months_in_halving_period : ℕ
default_months_in_halving_period = 12

unfoldable pub new_params : Bytes → Bytes → Bytes → ℕ → Bytes → ℕ → Params
new_params minting_address receiving_address denom max_supply start_date months = record {
  minting_address = minting_address;
  receiving_address = receiving_address;
  denom = denom;
  max_supply = max_supply;
  distribution_start_date = start_date;
  months_in_halving_period = months;
}

unfoldable pub default_params : Params
unfolding new_params
default_params =
    new_params default_minting_address default_receiving_address default_denom default_max_supply
      default_distribution_start_date default_months_in_halving_period

unfoldable pub default_genesis : GenesisState
unfolding default_params
default_genesis = record { params = default_params }

pub data ParamsError : Type 0 where
  empty_minting_address invalid_minting_address : ParamsError
  empty_receiving_address invalid_receiving_address : ParamsError
  invalid_denom zero_max_supply : ParamsError
  empty_start_date invalid_start_date zero_months : ParamsError

-- What the validations call in the Cosmos SDK: `sdk.AccAddressFromBech32` and `sdk.ValidateDenom`.
pub record SdkTypes : Type 0 where
  pub acc_address_from_bech32 : Bytes → Option Bytes
  pub validate_denom : Bytes → Bool

abbrev pub is_empty : Bytes → Bool
is_empty [] = true
is_empty (_ ∷ _) = false

abbrev pub is_some {ℓ} : {A : Type ℓ} → Option A → Bool
is_some none = false
is_some (some _) = true

module _ (sdk : SdkTypes) where
  open sdk use {acc_address_from_bech32, validate_denom}

  unfoldable pub validate_minting_address : Bytes → Result ParamsError ⊤
  validate_minting_address v = do
    fail_if (is_empty v) empty_minting_address
    require (is_some (acc_address_from_bech32 v)) invalid_minting_address

  unfoldable pub validate_receiving_address : Bytes → Result ParamsError ⊤
  validate_receiving_address v = do
    fail_if (is_empty v) empty_receiving_address
    require (is_some (acc_address_from_bech32 v)) invalid_receiving_address

  unfoldable pub validate_denom_param : Bytes → Result ParamsError ⊤
  validate_denom_param v = require (validate_denom v) invalid_denom

unfoldable pub validate_max_supply : ℕ → Result ParamsError ⊤
validate_max_supply v = fail_if (v == 0) zero_max_supply

unfoldable pub validate_distribution_start_date : Bytes → Result ParamsError ⊤
validate_distribution_start_date v = do
  fail_if (is_empty v) empty_start_date
  require (is_some (parse_date v)) invalid_start_date

unfoldable pub validate_months_in_halving_period : ℕ → Result ParamsError ⊤
validate_months_in_halving_period v = fail_if (v == 0) zero_months

module _ (sdk : SdkTypes) where
  open sdk use {acc_address_from_bech32}

  -- `Params.Validate`
  unfoldable pub validate : Params → Result ParamsError ⊤
  validate p = do
    validate_minting_address sdk p.minting_address
    validate_receiving_address sdk p.receiving_address
    validate_denom_param sdk p.denom
    validate_max_supply p.max_supply
    validate_distribution_start_date p.distribution_start_date
    validate_months_in_halving_period p.months_in_halving_period

  -- The two tests of `GenesisState.Validate` on the addresses, which may be empty.
  unfoldable pub validate_genesis_address : Bytes → ParamsError → Result ParamsError ⊤
  validate_genesis_address v e =
      if is_empty v then ok tt else require (is_some (acc_address_from_bech32 v)) e

  -- `GenesisState.Validate`
  unfoldable pub validate_genesis : GenesisState → Result ParamsError ⊤
  validate_genesis gs = do
    validate_genesis_address gs.params.minting_address invalid_minting_address
    validate_genesis_address gs.params.receiving_address invalid_receiving_address
    validate_denom_param sdk gs.params.denom
    validate_distribution_start_date gs.params.distribution_start_date
    validate_months_in_halving_period gs.params.months_in_halving_period

-- ===== src/App/Genesis.antt =====
-- The genesis of app/app.go: the default genesis, and what the start of the chain does with a genesis.
-- The codec, the modules' own genesis states and the upgrade keeper are outside the repository.
pub mod Native
pub mod Written
pub mod Start
use gnodi.Base.{ℕ, ◌%◌, ◌^◌, List, [], ◌∷◌, ◌++◌, ⊤, Option, none, some, if◌then◌else◌}
use gnodi.Base.Text.{Bytes, bytes, bytes_equal}
use gnodi.Base.Partial.{◌>>=◌}
use gnodi.App.Upgrades.{
  Chain, Metadata, EvmGenesis, FeeParams, VersionMap, new_evm_genesis_state,
  new_fee_market_genesis_state,
}

-- The genesis state of x/bank: the metadata of the denominations, and the rest.
pub record BankGenesis (Rest : Type 0) : Type 0 where
  pub denom_metadata : List Metadata
  pub rest : Rest

-- The codec, over the JSON messages. `MustMarshalJSON` and `MustUnmarshalJSON` panic on an error; a
-- module that is not in the map gives `MustUnmarshalJSON` no message.
pub record GenesisCodec (c : Chain) : Type 1 where
  pub Json : Type 0
  pub BankRest : Type 0
  pub Erc20Genesis : Type 0
  pub bank_name : Bytes
  pub coin_display_denom : Bytes
  pub coin_decimals : ℕ
  pub default_erc20 : Erc20Genesis
  -- `BasicModuleManager.DefaultGenesis`
  pub default_genesis_of_modules : Bytes → Option Json
  pub marshal_evm : EvmGenesis c.EvmRest c.Preinstalls → Option Json
  pub marshal_erc20 : Erc20Genesis → Option Json
  pub marshal_fee_market : FeeParams c.FeeRest → Option Json
  pub marshal_bank : BankGenesis BankRest → Option Json
  pub unmarshal_bank : Option Json → Option (BankGenesis BankRest)

-- A map from module names to JSON, and `genesis[name] = json`.
abbrev pub set_json : {J : Type 0} → (Bytes → Option J) → Bytes → J → Bytes → Option J
set_json genesis name json = λ other. if bytes_equal other name then some json else genesis other

module _ (c : Chain) (k : GenesisCodec c) where
  open k use {Json, BankRest, Erc20Genesis, coin_display_denom}

  abbrev pub GenesisMap : Type 0
  GenesisMap = Bytes → Option Json

  unfoldable pub new_erc20_genesis_state : Erc20Genesis
  new_erc20_genesis_state = k.default_erc20

  -- The metadata of the denomination of the EVM.
  unfoldable pub native_metadata : Metadata
  native_metadata = record {
    description = bytes "Gnodi native token";
    base = c.coin_denom;
    denom_units = (c.coin_denom, 0) ∷ (coin_display_denom, k.coin_decimals % 2 ^ 32) ∷ [];
    name = bytes "Gnodi";
    symbol = coin_display_denom;
    display = coin_display_denom;
  }

  unfoldable pub add_native : BankGenesis BankRest → BankGenesis BankRest
  add_native bank = record bank { denom_metadata = bank.denom_metadata ++ native_metadata ∷ [] }

  -- A value is missing where the code panics.
  unfoldable pub set_bank : GenesisMap → Option GenesisMap
  set_bank genesis = do
    bank ← k.unmarshal_bank (genesis k.bank_name)
    bank_json ← k.marshal_bank (add_native bank)
    some (set_json genesis k.bank_name bank_json)

  unfoldable pub default_app_genesis : Option GenesisMap
  default_app_genesis = do
    let genesis = k.default_genesis_of_modules
    evm ← k.marshal_evm (new_evm_genesis_state c)
    let genesis = set_json genesis c.evm_name evm
    erc20 ← k.marshal_erc20 new_erc20_genesis_state
    let genesis = set_json genesis c.erc20_name erc20
    fee_market ← k.marshal_fee_market (new_fee_market_genesis_state c)
    let genesis = set_json genesis c.fee_market_name fee_market
    set_bank genesis

-- ===== src/App/Tests/Genesis.antt =====
-- The default genesis on a chain of four modules and one more.
use gnodi.Base.{refl, ℕ, ◌≡◌, ⊤, Option, none, some, [], if◌then◌else◌}
use gnodi.Base.Text.{Bytes, bytes, bytes_equal}
use gnodi.App.Upgrades.{EvmGenesis, FeeParams}
use gnodi.App.Genesis.{GenesisCodec, BankGenesis, GenesisMap, default_app_genesis}
use gnodi.App.Genesis.Native.{IsNamed, IsComplete}
use gnodi.App.Genesis.Written.{IsWriting, default_app_genesis_there}
use gnodi.App.Tests.Upgrade.{small}

data Json : Type 0 where
  evm_json : EvmGenesis ⊤ ⊤ → Json
  erc20_json : Json
  fee_market_json : FeeParams ⊤ → Json
  bank_json : BankGenesis ⊤ → Json
  plain_json : ℕ → Json

abbrev read_bank : Option Json → Option (BankGenesis ⊤)
read_bank (some (bank_json b)) = some b
read_bank _ = none

abbrev module_genesis : Bytes → Option Json
module_genesis name =
    if bytes_equal name (bytes "bank")
    then some (bank_json (record { denom_metadata = []; rest = tt }))
    else if bytes_equal name (bytes "mint")
    then some (plain_json 3)
    else none

abbrev codec : GenesisCodec small
codec = record {
  Json = Json;
  BankRest = ⊤;
  Erc20Genesis = ⊤;
  bank_name = bytes "bank";
  coin_display_denom = bytes "GNOD";
  coin_decimals = 6;
  default_erc20 = tt;
  default_genesis_of_modules = module_genesis;
  marshal_evm = λ e. some (evm_json e);
  marshal_erc20 = λ e. some erc20_json;
  marshal_fee_market = λ f. some (fee_market_json f);
  marshal_bank = λ b. some (bank_json b);
  unmarshal_bank = read_bank;
}

names : IsNamed small codec
names = record {
  evm_erc20 = λ e. cc;
  evm_fee_market = λ e. cc;
  evm_bank = λ e. cc;
  erc20_fee_market = λ e. cc;
  erc20_bank = λ e. cc;
  fee_market_bank = λ e. cc;
}

writing : IsWriting small codec
unfolding bytes_equal
writing = record {
  evm = (_, refl);
  erc20 = (_, refl);
  fee_market = (_, refl);
  old_bank = (_, refl);
  bank = λ b. (_, refl);
}

default_app_genesis_there_example :
    (genesis : GenesisMap small codec) × (default_app_genesis small codec ≡ some genesis)
    × IsComplete small codec genesis
default_app_genesis_there_example = default_app_genesis_there small codec names writing

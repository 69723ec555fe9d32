-- ===== src/App/Genesis/Written.antt =====
-- The default genesis is written, when the codec writes and reads the states of the modules.
use gnodi.Base.{ap, ◌≡◌, ◌∙◌, Option, some}
use gnodi.Base.Partial.{◌>>=◌}
use gnodi.App.Upgrades.{Chain, new_evm_genesis_state, new_fee_market_genesis_state}
use gnodi.App.Genesis.{
  GenesisCodec, BankGenesis, GenesisMap, set_json, new_erc20_genesis_state, add_native, set_bank,
  default_app_genesis,
}
use gnodi.App.Genesis.Native.{
  IsNamed, IsComplete, base_genesis, base_bank, default_app_genesis-IsComplete,
}

-- A value that is there.
abbrev Given : {A : Type 0} → Option A → Type 0
Given {A} o = (a : A) × (o ≡ some a)

module _ (c : Chain) (k : GenesisCodec c) where
  open k use {Json, BankRest}

  -- The codec writes the states that the application makes, and reads that of the bank.
  pub record IsWriting : Type 0 where
    pub evm : Given (k.marshal_evm (new_evm_genesis_state c))
    pub erc20 : Given (k.marshal_erc20 (new_erc20_genesis_state c k))
    pub fee_market : Given (k.marshal_fee_market (new_fee_market_genesis_state c))
    pub old_bank : Given (k.unmarshal_bank (k.default_genesis_of_modules k.bank_name))
    pub bank : (b : BankGenesis BankRest) → Given (k.marshal_bank b)

  some_then :
      {A B : Type 0} (o : Option A) (f : A → Option B) {a : A} → o ≡ some a → (o >>= f) ≡ f a
  some_then o f e = ap (λ o. o >>= f) e

  -- With different names of the four modules and a codec that writes the states that the
  -- application makes, reads the default state of x/bank and writes every state of it, the default
  -- genesis is written. It holds the states that the application makes for x/vm, x/erc20 and
  -- x/feemarket, the state of x/bank with the metadata of the native denomination after those of
  -- the module, which describes the denomination of the EVM's state, and the states of all other
  -- modules as the modules made them.
  pub default_app_genesis_there :
      IsNamed c k
      → IsWriting
      → (genesis : GenesisMap c k) × (default_app_genesis c k ≡ some genesis)
        × IsComplete c k genesis
  unfolding default_app_genesis set_bank
  default_app_genesis_there n w =
      let (evm, e1) = w.evm in
      let (erc20, e2) = w.erc20 in
      let (fee_market, e3) = w.fee_market in
      let (old, e4) = w.old_bank in
      let (bank_json, e5) = w.bank (add_native c k old) in
      let base = base_genesis c k evm erc20 fee_market in
      let genesis = set_json base k.bank_name bank_json in
      let all : default_app_genesis c k ≡ some genesis =
        some_then (k.marshal_evm (new_evm_genesis_state c)) _ e1
        ∙ some_then (k.marshal_erc20 (new_erc20_genesis_state c k)) _ e2
        ∙ some_then (k.marshal_fee_market (new_fee_market_genesis_state c)) _ e3
        ∙ some_then (k.unmarshal_bank (base k.bank_name)) _
            (ap k.unmarshal_bank (base_bank c k evm erc20 fee_market n) ∙ e4)
        ∙ some_then (k.marshal_bank (add_native c k old)) _ e5 in
      (genesis, all, default_app_genesis-IsComplete c k genesis n all)

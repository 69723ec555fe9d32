-- ===== src/App/Genesis/Native.antt =====
-- The default genesis: what the modules find in it.
use gnodi.Base.{
  refl, sym, ap, subst, ◌∙◌, ◌≡◌, ◌≢◌, [], ◌∷◌, ◌++◌, Option, some, Bool-cases, inl, inr,
}
use gnodi.Base.Text.{Bytes, bytes, bytes_equal, bytes_equal_iff}
use gnodi.Base.Partial.{>>=-eq-some, some_inj}
use gnodi.App.Upgrades.{Chain, gnod_metadata, new_evm_genesis_state, new_fee_market_genesis_state}
use gnodi.App.Genesis.{
  GenesisCodec, BankGenesis, GenesisMap, set_json, new_erc20_genesis_state, native_metadata,
  add_native, set_bank, default_app_genesis,
}

module _ (c : Chain) (k : GenesisCodec c) where
  open k use {Json, BankRest}

  -- The four modules that the code names have different names.
  pub record IsNamed : Type 0 where
    pub evm_erc20 : c.evm_name ≢ c.erc20_name
    pub evm_fee_market : c.evm_name ≢ c.fee_market_name
    pub evm_bank : c.evm_name ≢ k.bank_name
    pub erc20_fee_market : c.erc20_name ≢ c.fee_market_name
    pub erc20_bank : c.erc20_name ≢ k.bank_name
    pub fee_market_bank : c.fee_market_name ≢ k.bank_name

  -- The JSON of a module is that of a value.
  abbrev pub Holds : {A : Type 0} → (A → Option Json) → GenesisMap c k → Bytes → A → Type 0
  Holds marshal genesis name a =
      (json : Json) × (marshal a ≡ some json) × (genesis name ≡ some json)

  pub record IsComplete (genesis : GenesisMap c k) : Type 0 where
    pub evm : Holds k.marshal_evm genesis c.evm_name (new_evm_genesis_state c)
    pub erc20 : Holds k.marshal_erc20 genesis c.erc20_name (new_erc20_genesis_state c k)
    pub fee_market :
        Holds k.marshal_fee_market genesis c.fee_market_name (new_fee_market_genesis_state c)
    pub old_bank : BankGenesis BankRest
    pub of_module : k.unmarshal_bank (k.default_genesis_of_modules k.bank_name) ≡ some old_bank
    pub bank :
        Holds k.marshal_bank genesis k.bank_name
          (record old_bank { denom_metadata = old_bank.denom_metadata ++ native_metadata c k ∷ [] })
    pub described : (native_metadata c k).base ≡ (new_evm_genesis_state c).evm_denom
    pub others :
        (name : Bytes)
        → name ≢ c.evm_name
        → name ≢ c.erc20_name
        → name ≢ c.fee_market_name
        → name ≢ k.bank_name
        → genesis name ≡ k.default_genesis_of_modules name

  set_json_same :
      (genesis : GenesisMap c k) (name : Bytes) (json : Json)
      → set_json genesis name json name ≡ some json
  set_json_same genesis name json = rw ((bytes_equal_iff name name).1 refl)

  set_json_other :
      (genesis : GenesisMap c k) (name other : Bytes) (json : Json)
      → other ≢ name
      → set_json genesis name json other ≡ genesis other
  set_json_other genesis name other json n = elim (Bool-cases (bytes_equal other name)) [
    | inl e ↦ absurd (n ((bytes_equal_iff other name).0 e))
    | inr e ↦ rw e
  ]

  -- The JSON of a genesis that was set before two others.
  under :
      (genesis : GenesisMap c k) (name a b : Bytes) (j x y : Json)
      → name ≢ a
      → name ≢ b
      → set_json (set_json (set_json genesis name j) a x) b y name ≡ some j
  under genesis name a b j x y n m =
      set_json_other (set_json (set_json genesis name j) a x) b name y m
      ∙ set_json_other (set_json genesis name j) a name x n
      ∙ set_json_same genesis name j

  abbrev pub base_genesis : Json → Json → Json → GenesisMap c k
  base_genesis evm erc20 fee_market =
      set_json (set_json (set_json k.default_genesis_of_modules c.evm_name evm) c.erc20_name erc20)
        c.fee_market_name fee_market

  -- It has the bank's state of the modules.
  pub base_bank :
      (evm erc20 fee_market : Json)
      → IsNamed
      → base_genesis evm erc20 fee_market k.bank_name ≡ k.default_genesis_of_modules k.bank_name
  base_bank evm erc20 fee_market n =
      let g1 = set_json k.default_genesis_of_modules c.evm_name evm in
      let g2 = set_json g1 c.erc20_name erc20 in
      set_json_other g2 c.fee_market_name k.bank_name fee_market (λ e. n.fee_market_bank (sym e))
      ∙ set_json_other g1 c.erc20_name k.bank_name erc20 (λ e. n.erc20_bank (sym e))
      ∙ set_json_other k.default_genesis_of_modules c.evm_name k.bank_name evm
          (λ e. n.evm_bank (sym e))

  filled-IsComplete :
      (evm erc20 fee_market bank_json : Json) (old : BankGenesis BankRest)
      → IsNamed
      → k.marshal_evm (new_evm_genesis_state c) ≡ some evm
      → k.marshal_erc20 (new_erc20_genesis_state c k) ≡ some erc20
      → k.marshal_fee_market (new_fee_market_genesis_state c) ≡ some fee_market
      → k.unmarshal_bank (base_genesis evm erc20 fee_market k.bank_name) ≡ some old
      → k.marshal_bank (add_native c k old) ≡ some bank_json
      → IsComplete (set_json (base_genesis evm erc20 fee_market) k.bank_name bank_json)
  unfolding add_native native_metadata new_evm_genesis_state
  filled-IsComplete evm erc20 fee_market bank_json old n e1 e2 e3 e4 e5 =
      let base = base_genesis evm erc20 fee_market in
      let g1 = set_json k.default_genesis_of_modules c.evm_name evm in
      let g2 = set_json g1 c.erc20_name erc20 in
      record {
        evm = (
          evm,
          e1,
          set_json_other base k.bank_name c.evm_name bank_json n.evm_bank
              ∙ under k.default_genesis_of_modules c.evm_name c.erc20_name c.fee_market_name evm
                  erc20 fee_market n.evm_erc20 n.evm_fee_market,
        );
        erc20 = (
          erc20,
          e2,
          under g1 c.erc20_name c.fee_market_name k.bank_name erc20 fee_market bank_json
              n.erc20_fee_market n.erc20_bank,
        );
        fee_market = (
          fee_market,
          e3,
          set_json_other base k.bank_name c.fee_market_name bank_json n.fee_market_bank
              ∙ set_json_same g2 c.fee_market_name fee_market,
        );
        old_bank = old;
        of_module = ap k.unmarshal_bank (sym (base_bank evm erc20 fee_market n)) ∙ e4;
        bank = (bank_json, e5, set_json_same base k.bank_name bank_json);
        described = refl;
        others = λ name a b d e.
            set_json_other base k.bank_name name bank_json e
            ∙ set_json_other g2 c.fee_market_name name fee_market d
            ∙ set_json_other g1 c.erc20_name name erc20 b
            ∙ set_json_other k.default_genesis_of_modules c.evm_name name evm a;
      }

  -- When the default genesis can be written and the four modules have different names, it holds
  -- the states that the application makes for x/vm, x/erc20 and x/feemarket, the state of x/bank
  -- with the metadata of the native denomination after those of the module, which describes the
  -- denomination of the EVM's state, and the states of all other modules as the modules made them.
  pub default_app_genesis-IsComplete :
      (genesis : GenesisMap c k)
      → IsNamed
      → default_app_genesis c k ≡ some genesis
      → IsComplete genesis
  unfolding default_app_genesis set_bank
  default_app_genesis-IsComplete genesis n h =
      let (j1, e1, h1) = >>=-eq-some (k.marshal_evm (new_evm_genesis_state c)) _ h in
      let (j2, e2, h2) = >>=-eq-some (k.marshal_erc20 (new_erc20_genesis_state c k)) _ h1 in
      let (j3, e3, h3) = >>=-eq-some (k.marshal_fee_market (new_fee_market_genesis_state c)) _ h2 in
      let (old, e4, h4) = >>=-eq-some (k.unmarshal_bank (base_genesis j1 j2 j3 k.bank_name)) _ h3 in
      let (j4, e5, h5) = >>=-eq-some (k.marshal_bank (add_native c k old)) _ h4 in
      subst IsComplete (some_inj h5) (filled-IsComplete j1 j2 j3 j4 old n e1 e2 e3 e4 e5)

  -- For the denominations of the chain, uGNOD and GNOD with 6 decimals, the metadata of the
  -- default genesis are those that the upgrade sets on a chain without the EVM.
  pub native_metadata-gnod_metadata :
      c.coin_denom ≡ bytes "uGNOD"
      → k.coin_display_denom ≡ bytes "GNOD"
      → k.coin_decimals ≡ 6
      → native_metadata c k ≡ gnod_metadata
  unfolding native_metadata
  native_metadata-gnod_metadata d s n = rw (d, s, n)

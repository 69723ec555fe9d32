-- ===== src/App/Keepers.antt =====
-- The construction of the keepers in `New` of app/app.go and in app/ibc.go: the order in which they are
-- made, the stores they are given, and which other keepers each is given, by value or by reference.
-- The keepers themselves are outside the repository.
pub mod Wired
use gnodi.Base.{List, [], ◌∷◌, ◌++◌}

-- The keepers of the application, which are its fields.
pub data AppKeeper : Type 0 where
  consensus_params params account bank staking mint_keeper distr slashing : AppKeeper
  fee_grant authz upgrade gov evidence circuit_breaker nft group epochs ibc : AppKeeper
  fee_market precise_bank evm erc20 ica_host ica_controller transfer distro : AppKeeper

-- The keys of the stores, the transient ones with `_transient`.
pub data Store : Type 0 where
  auth_store bank_store staking_store mint_store distr_store slashing_store : Store
  gov_store consensus_store upgrade_store feegrant_store evidence_store authz_store : Store
  params_store nft_store group_store circuit_store epochs_store : Store
  ibc_store transfer_store ica_host_store ica_controller_store : Store
  evm_store fee_market_store erc20_store precisebank_store distro_store : Store
  params_transient evm_transient fee_market_transient : Store

-- `NewKVStoreKeys` and `NewTransientStoreKeys`; the same lists are mounted.
abbrev pub keys : List Store
keys =
    auth_store ∷ bank_store ∷ staking_store ∷ mint_store ∷ distr_store ∷ slashing_store ∷ gov_store
    ∷ consensus_store ∷ upgrade_store ∷ feegrant_store ∷ evidence_store ∷ authz_store ∷ params_store
    ∷ nft_store ∷ group_store ∷ circuit_store ∷ epochs_store ∷ ibc_store ∷ transfer_store
    ∷ ica_host_store ∷ ica_controller_store ∷ evm_store ∷ fee_market_store ∷ erc20_store
    ∷ precisebank_store ∷ distro_store ∷ []

abbrev pub tkeys : List Store
tkeys = params_transient ∷ evm_transient ∷ fee_market_transient ∷ []

-- A statement of the constructor: it makes a keeper with stores of its own, changes one that is there,
-- or only uses keepers. `copied` are the fields that it reads or changes, `referred` those whose
-- address it hands on.
pub data KeeperStep : Type 0 where
  makes : AppKeeper → List Store → List AppKeeper → List AppKeeper → KeeperStep
  changes : AppKeeper → List AppKeeper → KeeperStep
  uses : List AppKeeper → List AppKeeper → KeeperStep

abbrev pub copied : KeeperStep → List AppKeeper
copied (makes k stores copies refs) = copies
copied (changes k copies) = k ∷ copies
copied (uses copies refs) = copies

abbrev pub referred : KeeperStep → List AppKeeper
referred (makes k stores copies refs) = refs
referred (changes k copies) = []
referred (uses copies refs) = refs

unfoldable pub made_by : KeeperStep → List AppKeeper
made_by (makes k stores copies refs) = k ∷ []
made_by _ = []

unfoldable pub stores_by : KeeperStep → List Store
stores_by (makes k stores copies refs) = stores
stores_by _ = []

-- The standard keepers.
abbrev pub sdk_steps : List KeeperStep
sdk_steps =
    makes consensus_params (consensus_store ∷ []) [] []
    ∷ uses (consensus_params ∷ []) []
    ∷ makes params (params_store ∷ params_transient ∷ []) [] []
    ∷ makes account (auth_store ∷ []) [] []
    ∷ makes bank (bank_store ∷ []) (account ∷ []) []
    ∷ uses (bank ∷ []) []
    ∷ makes staking (staking_store ∷ []) (account ∷ bank ∷ []) []
    ∷ makes mint_keeper (mint_store ∷ []) (staking ∷ account ∷ bank ∷ []) []
    ∷ makes distr (distr_store ∷ []) (account ∷ bank ∷ staking ∷ []) []
    ∷ makes slashing (slashing_store ∷ []) (staking ∷ []) []
    ∷ makes fee_grant (feegrant_store ∷ []) (account ∷ []) []
    ∷ changes staking (distr ∷ slashing ∷ [])
    ∷ makes authz (authz_store ∷ []) (account ∷ []) []
    ∷ makes upgrade (upgrade_store ∷ []) [] []
    ∷ makes gov (gov_store ∷ []) (account ∷ bank ∷ staking ∷ distr ∷ []) []
    ∷ makes evidence (evidence_store ∷ []) (staking ∷ slashing ∷ account ∷ []) []
    ∷ makes circuit_breaker (circuit_store ∷ []) (account ∷ []) []
    ∷ uses [] (circuit_breaker ∷ [])
    ∷ makes nft (nft_store ∷ []) (account ∷ bank ∷ []) []
    ∷ makes group (group_store ∷ []) (account ∷ []) []
    ∷ makes epochs (epochs_store ∷ []) [] []
    ∷ makes ibc (ibc_store ∷ []) (upgrade ∷ []) []
    ∷ []

-- The keepers of the EVM; x/vm is also given the map of all store keys.
abbrev pub evm_steps : List KeeperStep
evm_steps =
    makes fee_market (fee_market_store ∷ fee_market_transient ∷ []) [] []
    ∷ makes precise_bank (precisebank_store ∷ []) (bank ∷ account ∷ []) []
    ∷ makes evm (evm_store ∷ evm_transient ∷ [])
        (account ∷ precise_bank ∷ staking ∷ fee_market ∷ distr ∷ ibc ∷ gov ∷ slashing ∷ [])
        (consensus_params ∷ erc20 ∷ transfer ∷ [])
    ∷ makes erc20 (erc20_store ∷ []) (account ∷ precise_bank ∷ evm ∷ staking ∷ []) (transfer ∷ [])
    ∷ []

-- `registerIBCModules`: the keepers, and the stacks of modules over them, in the order of the code.
abbrev pub ibc_steps : List KeeperStep
ibc_steps =
    makes ica_host (ica_host_store ∷ []) (ibc ∷ account ∷ []) []
    ∷ makes ica_controller (ica_controller_store ∷ []) (ibc ∷ []) []
    ∷ makes transfer (transfer_store ∷ []) (ibc ∷ account ∷ bank ∷ []) []
    ∷ changes transfer []
    ∷ uses (transfer ∷ []) []
    ∷ uses (erc20 ∷ []) []
    ∷ uses (account ∷ evm ∷ erc20 ∷ []) []
    ∷ uses (ibc ∷ []) []
    ∷ changes transfer []
    ∷ uses (transfer ∷ []) []
    ∷ uses (erc20 ∷ []) []
    ∷ uses (ica_controller ∷ []) []
    ∷ uses (ica_host ∷ []) []
    ∷ changes ibc []
    ∷ changes ibc []
    ∷ []

-- The keeper of x/distro, the light client, and the modules of the manager, one after another.
abbrev pub module_steps : List KeeperStep
module_steps =
    makes distro (distro_store ∷ []) (bank ∷ account ∷ []) []
    ∷ uses (ibc ∷ []) []
    ∷ changes ibc []
    ∷ uses (transfer ∷ []) []
    ∷ uses (account ∷ staking ∷ []) []
    ∷ uses (account ∷ []) []
    ∷ uses (account ∷ bank ∷ []) []
    ∷ uses (bank ∷ account ∷ []) []
    ∷ uses (account ∷ bank ∷ fee_grant ∷ []) []
    ∷ uses (account ∷ bank ∷ []) (gov ∷ [])
    ∷ uses (mint_keeper ∷ account ∷ []) []
    ∷ uses (slashing ∷ account ∷ bank ∷ staking ∷ []) []
    ∷ uses (distr ∷ account ∷ bank ∷ staking ∷ []) []
    ∷ uses (staking ∷ account ∷ bank ∷ []) []
    ∷ uses (upgrade ∷ account ∷ []) []
    ∷ uses (evidence ∷ []) []
    ∷ uses (authz ∷ account ∷ bank ∷ []) []
    ∷ uses (consensus_params ∷ []) []
    ∷ uses (circuit_breaker ∷ []) []
    ∷ uses (nft ∷ account ∷ bank ∷ []) []
    ∷ uses (group ∷ account ∷ bank ∷ []) []
    ∷ uses (params ∷ []) []
    ∷ uses (epochs ∷ []) []
    ∷ uses (ibc ∷ []) []
    ∷ uses [] (ica_controller ∷ ica_host ∷ [])
    ∷ uses (evm ∷ account ∷ bank ∷ []) []
    ∷ uses (fee_market ∷ []) []
    ∷ uses (erc20 ∷ account ∷ []) []
    ∷ uses (precise_bank ∷ bank ∷ account ∷ []) []
    ∷ uses (distro ∷ account ∷ bank ∷ []) []
    ∷ []

abbrev pub construction : List KeeperStep
construction = sdk_steps ++ (evm_steps ++ (ibc_steps ++ module_steps))

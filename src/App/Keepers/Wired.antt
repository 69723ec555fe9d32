-- ===== src/App/Keepers/Wired.antt =====
-- Every keeper is there when another is made from it, and has stores of its own.
use gnodi.Base.{
  refl, subst, arith, ℕ, suc, ◌≡◌, Bool, true, false, ◌==◌, List, [], ◌∷◌, ◌++◌, All, if◌then◌else◌,
}
use gnodi.App.Keepers.{
  AppKeeper, KeeperStep, Store, copied, referred, made_by, stores_by, construction, keys, tkeys,
}
use gnodi.App.Keepers.{
  consensus_params, params, account, bank, staking, mint_keeper, distr, slashing, fee_grant, authz,
  upgrade, gov, evidence, circuit_breaker, nft, group, epochs, ibc, fee_market, precise_bank, evm,
  erc20, ica_host, ica_controller, transfer, distro,
}
use gnodi.App.Keepers.{
  auth_store, bank_store, staking_store, mint_store, distr_store, slashing_store, gov_store,
  consensus_store, upgrade_store, feegrant_store, evidence_store, authz_store, params_store,
  nft_store, group_store, circuit_store, epochs_store, ibc_store, transfer_store, ica_host_store,
  ica_controller_store, evm_store, fee_market_store, erc20_store, precisebank_store, distro_store,
  params_transient, evm_transient, fee_market_transient,
}

abbrev number : AppKeeper → ℕ
number consensus_params = 0
number params = 1
number account = 2
number bank = 3
number staking = 4
number mint_keeper = 5
number distr = 6
number slashing = 7
number fee_grant = 8
number authz = 9
number upgrade = 10
number gov = 11
number evidence = 12
number circuit_breaker = 13
number nft = 14
number group = 15
number epochs = 16
number ibc = 17
number fee_market = 18
number precise_bank = 19
number evm = 20
number erc20 = 21
number ica_host = 22
number ica_controller = 23
number transfer = 24
number distro = 25

abbrev pub store_number : Store → ℕ
store_number auth_store = 0
store_number bank_store = 1
store_number staking_store = 2
store_number mint_store = 3
store_number distr_store = 4
store_number slashing_store = 5
store_number gov_store = 6
store_number consensus_store = 7
store_number upgrade_store = 8
store_number feegrant_store = 9
store_number evidence_store = 10
store_number authz_store = 11
store_number params_store = 12
store_number nft_store = 13
store_number group_store = 14
store_number circuit_store = 15
store_number epochs_store = 16
store_number ibc_store = 17
store_number transfer_store = 18
store_number ica_host_store = 19
store_number ica_controller_store = 20
store_number evm_store = 21
store_number fee_market_store = 22
store_number erc20_store = 23
store_number precisebank_store = 24
store_number distro_store = 25
store_number params_transient = 26
store_number evm_transient = 27
store_number fee_market_transient = 28

unfoldable pub count : {A : Type 0} → (A → ℕ) → A → List A → ℕ
count index a [] = 0
count index a (b ∷ l) = let rest = count index a l in if index a == index b then suc rest else rest

unfoldable pub has : AppKeeper → List AppKeeper → Bool
has k [] = false
has k (l ∷ ls) = let rest = has k ls in if number k == number l then true else rest

-- The keepers that are there after some steps, and the stores that the steps use.
unfoldable pub made : List AppKeeper → List KeeperStep → List AppKeeper
made known [] = known
made known (step ∷ steps) = made (made_by step ++ known) steps

unfoldable pub stores_of : List KeeperStep → List Store
stores_of [] = []
stores_of (step ∷ steps) = stores_by step ++ stores_of steps

abbrev Known : List AppKeeper → List AppKeeper → Type 0
Known known ks = All (λ k. has k known ≡ true) ks

-- Every step in a list finds the keepers that it reads.
Wired : List AppKeeper → List KeeperStep → Type 0
Wired known [] = Unit
Wired known (step ∷ steps) = Known known (copied step) × Wired (made_by step ++ known) steps

Wired-step :
    (before after : List KeeperStep) (step : KeeperStep) (known : List AppKeeper)
    → Wired known (before ++ step ∷ after)
    → Known (made known before) (copied step)
unfolding Wired made
Wired-step [] after step known (h, hs) = h
Wired-step (x ∷ before) after step known (h, hs) =
    Wired-step before after step (made_by x ++ known) hs

construction-Wired : Wired [] construction
unfolding Wired made_by has
construction-Wired = ground arith

referred-Known : All (λ step. Known (made [] construction) (referred step)) construction
unfolding made made_by has
referred-Known = ground arith

All-middle :
    {A : Type 0} (P : A → Type 0) (before after : List A) (a : A)
    → All P (before ++ a ∷ after)
    → P a
All-middle P [] after a (h, hs) = h
All-middle P (x ∷ before) after a (h, hs) = All-middle P before after a hs

-- At every statement of the construction of the keepers and modules, each keeper that it reads or
-- changes has been made by a statement before it, and each keeper whose address it hands on is
-- made in the end.
pub construction_wired :
    (before after : List KeeperStep) (step : KeeperStep)
    → construction ≡ before ++ step ∷ after
    → All (λ k. has k (made [] before) ≡ true) (copied step)
      × All (λ k. has k (made [] construction) ≡ true) (referred step)
construction_wired before after step e = (
  Wired-step before after step [] (subst (Wired []) e construction-Wired),
  All-middle (λ x. Known (made [] construction) (referred x)) before after step
      (subst (All (λ x. Known (made [] construction) (referred x))) e referred-Known),
)

-- Every keeper is made once; every store is mounted once and given to one keeper.
pub stores_apart :
    (s : Store)
    → (count store_number s (keys ++ tkeys) ≡ 1)
      × (count store_number s (stores_of construction) ≡ 1)
unfolding count stores_of stores_by
stores_apart auth_store = (refl, refl)
stores_apart bank_store = (refl, refl)
stores_apart staking_store = (refl, refl)
stores_apart mint_store = (refl, refl)
stores_apart distr_store = (refl, refl)
stores_apart slashing_store = (refl, refl)
stores_apart gov_store = (refl, refl)
stores_apart consensus_store = (refl, refl)
stores_apart upgrade_store = (refl, refl)
stores_apart feegrant_store = (refl, refl)
stores_apart evidence_store = (refl, refl)
stores_apart authz_store = (refl, refl)
stores_apart params_store = (refl, refl)
stores_apart nft_store = (refl, refl)
stores_apart group_store = (refl, refl)
stores_apart circuit_store = (refl, refl)
stores_apart epochs_store = (refl, refl)
stores_apart ibc_store = (refl, refl)
stores_apart transfer_store = (refl, refl)
stores_apart ica_host_store = (refl, refl)
stores_apart ica_controller_store = (refl, refl)
stores_apart evm_store = (refl, refl)
stores_apart fee_market_store = (refl, refl)
stores_apart erc20_store = (refl, refl)
stores_apart precisebank_store = (refl, refl)
stores_apart distro_store = (refl, refl)
stores_apart params_transient = (refl, refl)
stores_apart evm_transient = (refl, refl)
stores_apart fee_market_transient = (refl, refl)

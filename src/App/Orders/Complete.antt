-- ===== src/App/Orders/Complete.antt =====
-- No module is missing in an order or stands in it twice.
use gnodi.Base.{ℕ, ◌≡◌, refl}
use gnodi.App.Orders.{
  Module, genutil, auth, vesting, bank, feegrant, gov, mint_module, slashing, distribution, staking,
  upgrade, evidence, authz, consensus, circuit, nft, group, params, epochs, ibc, light_client,
  ibc_transfer, interchain_accounts, evm, fee_market, erc20, precisebank, distro, count, managed,
  begin_block_order, end_block_order, genesis_module_order,
}

-- How often a module stands in the orders of the end blockers and of genesis, and of the begin blockers.
abbrev pub expected : Module → ℕ
expected light_client = 0
expected _ = 1

abbrev pub expected_begin : Module → ℕ
expected_begin light_client = 0
expected_begin upgrade = 0
expected_begin _ = 1

-- Every module of the manager is managed once, and stands once in the orders of genesis and of the
-- end and begin blockers, apart from the light client, which is in none, and upgrade, which is not
-- in that of the begin blockers.
pub orders_complete :
    (m : Module)
    → (count m managed ≡ 1)
      × (count m genesis_module_order ≡ expected m)
      × (count m end_block_order ≡ expected m)
      × (count m begin_block_order ≡ expected_begin m)
unfolding count
orders_complete genutil = (refl, refl, refl, refl)
orders_complete auth = (refl, refl, refl, refl)
orders_complete vesting = (refl, refl, refl, refl)
orders_complete bank = (refl, refl, refl, refl)
orders_complete feegrant = (refl, refl, refl, refl)
orders_complete gov = (refl, refl, refl, refl)
orders_complete mint_module = (refl, refl, refl, refl)
orders_complete slashing = (refl, refl, refl, refl)
orders_complete distribution = (refl, refl, refl, refl)
orders_complete staking = (refl, refl, refl, refl)
orders_complete upgrade = (refl, refl, refl, refl)
orders_complete evidence = (refl, refl, refl, refl)
orders_complete authz = (refl, refl, refl, refl)
orders_complete consensus = (refl, refl, refl, refl)
orders_complete circuit = (refl, refl, refl, refl)
orders_complete nft = (refl, refl, refl, refl)
orders_complete group = (refl, refl, refl, refl)
orders_complete params = (refl, refl, refl, refl)
orders_complete epochs = (refl, refl, refl, refl)
orders_complete ibc = (refl, refl, refl, refl)
orders_complete light_client = (refl, refl, refl, refl)
orders_complete ibc_transfer = (refl, refl, refl, refl)
orders_complete interchain_accounts = (refl, refl, refl, refl)
orders_complete evm = (refl, refl, refl, refl)
orders_complete fee_market = (refl, refl, refl, refl)
orders_complete erc20 = (refl, refl, refl, refl)
orders_complete precisebank = (refl, refl, refl, refl)
orders_complete distro = (refl, refl, refl, refl)

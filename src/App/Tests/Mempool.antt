-- ===== src/App/Tests/Mempool.antt =====
-- The handlers of transactions on the small application: a pool is what it was made of.
use gnodi.Base.{refl, ℕ, ◌≡◌, true, ⊤, none, some}
use gnodi.Base.Int.{pos}
use gnodi.App.Mempool.{PoolSdk, MempoolConfig, PoolApp, set_handlers}
use gnodi.App.Mempool.Pooled.{HasMempool}
use gnodi.App.Mempool.Ready.{set_handlers_there}
use gnodi.App.Tests.Ante.{toy, toy_app, toy_validate, toy_evm}

abbrev sdk : PoolSdk toy
sdk = record {
  Opts = ℕ;
  ClientCtx = ⊤;
  LegacyPool = ⊤;
  MinTip = ⊤;
  Pool = ℕ;
  CheckTx = ℕ;
  Prepare = ℕ;
  Process = ℕ;
  PostHandler = ⊤;
  max_tx_gas_wanted = λ opts. 5;
  has_chain_config = true;
  cosmos_pool_max_tx = λ opts. pos opts;
  legacy_pool_config = λ opts. tt;
  block_gas_limit = λ opts. 100;
  min_tip = λ opts. tt;
  new_check_tx_handler = λ pool. pool;
  prepare_proposal = λ pool. pool;
  process_proposal = λ pool. pool;
  new_post_handler = some tt;
  validate = toy_validate;
  new_ante_handler = toy_evm;
}

abbrev pool_limit : MempoolConfig toy sdk → ℕ
pool_limit config = config.block_gas_limit

abbrev bare : PoolApp toy sdk
bare = record {
  app = toy_app;
  tx_config = tt;
  client_ctx = tt;
  post_handler = none;
  evm_mempool = none;
  mempool = none;
  check_tx_handler = none;
  prepare_handler = none;
  process_handler = none;
}

set_handlers_there_example :
    (a : PoolApp toy sdk) × (set_handlers toy sdk (λ e f t c config n. pool_limit config) 9 bare
      ≡ some a)
    × HasMempool toy sdk (λ e f t c config n. pool_limit config) 9 bare a
set_handlers_there_example =
    set_handlers_there toy sdk (λ e f t c config n. pool_limit config) 9 bare tt refl refl

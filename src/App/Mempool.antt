-- ===== src/App/Mempool.antt =====
-- app/mempool.go, and the end of the constructor of app/app.go that sets the handlers of transactions.
-- The mempool and its handlers are outside the repository.
pub mod Pooled
pub mod Ready
use gnodi.Base.{ℕ, Bool, false, not, List, Option, none, some, ⊤, if◌then◌else◌}
use gnodi.Base.Partial.{◌>>=◌}
use gnodi.Base.Int.{ℤ, pos, ltb_ℤ}
use gnodi.App.Ante.Handler.{EvmAnte, App, AnteHandler, HandlerOptions, set_ante_handler}

-- The options of the application, and what the packages make of them.
pub record PoolSdk (k : EvmAnte) : Type 1 where
  pub Opts : Type 0
  pub ClientCtx : Type 0
  pub LegacyPool : Type 0
  pub MinTip : Type 0
  pub Pool : Type 0
  pub CheckTx : Type 0
  pub Prepare : Type 0
  pub Process : Type 0
  pub PostHandler : Type 0
  -- `cast.ToUint64(appOpts.Get(srvflags.EVMMaxTxGasWanted))`
  pub max_tx_gas_wanted : Opts → ℕ
  -- Whether `evmtypes.GetChainConfig()` is not nil.
  pub has_chain_config : Bool
  pub cosmos_pool_max_tx : Opts → ℤ
  pub legacy_pool_config : Opts → LegacyPool
  pub block_gas_limit : Opts → ℕ
  pub min_tip : Opts → MinTip
  pub new_check_tx_handler : Pool → CheckTx
  -- The handlers of the default proposal handler with the signers of the EVM.
  pub prepare_proposal : Pool → Prepare
  pub process_proposal : Pool → Process
  -- `posthandler.NewPostHandler`
  pub new_post_handler : Option PostHandler
  pub validate : HandlerOptions k → Option ⊤
  pub new_ante_handler : HandlerOptions k → AnteHandler k

module _ (k : EvmAnte) (p : PoolSdk k) where
  open k use {EvmKeeper, FeeMarketKeeper, TxConfig}
  open p use {Opts, ClientCtx, LegacyPool, MinTip, Pool, CheckTx, Prepare, Process, PostHandler}

  pub record MempoolConfig : Type 0 where
    pub ante_handler : Option (AnteHandler k)
    pub legacy_pool_config : LegacyPool
    pub block_gas_limit : ℕ
    pub min_tip : MinTip

  pub record PoolApp : Type 0 where
    pub app : App k
    pub tx_config : TxConfig
    pub client_ctx : ClientCtx
    pub post_handler : Option PostHandler
    pub evm_mempool : Option Pool
    pub mempool : Option Pool
    pub check_tx_handler : Option CheckTx
    pub prepare_handler : Option Prepare
    pub process_handler : Option Process

  -- There is no error in it.
  unfoldable pub create_mempool_config : Opts → PoolApp → Option MempoolConfig
  create_mempool_config opts a = some (record {
    ante_handler = a.app.ante_handler;
    legacy_pool_config = p.legacy_pool_config opts;
    block_gas_limit = p.block_gas_limit opts;
    min_tip = p.min_tip opts;
  })

  unfoldable pub set_post_handler : PoolApp → Option PoolApp
  set_post_handler a = do
    post_handler ← p.new_post_handler
    some (record a { post_handler = some post_handler })

  -- `evmmempool.NewExperimentalEVMMempool`
  module _
      (new_pool : EvmKeeper
        → FeeMarketKeeper
        → TxConfig
        → ClientCtx
        → MempoolConfig
        → ℤ
        → Pool) where
    -- The application with a mempool, and the handlers of that mempool.
    unfoldable pub with_pool : Pool → PoolApp → PoolApp
    with_pool pool a = record a {
      evm_mempool = some pool;
      mempool = some pool;
      check_tx_handler = some (p.new_check_tx_handler pool);
      prepare_handler = some (p.prepare_proposal pool);
      process_handler = some (p.process_proposal pool);
    }

    -- A value is missing where the code returns an error.
    unfoldable pub configure_evm_mempool : Opts → PoolApp → Option PoolApp
    configure_evm_mempool opts a =
        let max_tx = p.cosmos_pool_max_tx opts in
        let configured = do
          config ← create_mempool_config opts a
          let pool =
              new_pool a.app.evm_keeper a.app.fee_market_keeper a.tx_config a.client_ctx config
                max_tx
          some (with_pool pool a)
        in if not p.has_chain_config
          then some a
          else if ltb_ℤ max_tx (pos 0)
          then some a
          else configured

    -- The last steps of `New`: an error of any of them is a panic.
    unfoldable pub set_handlers : Opts → PoolApp → Option PoolApp
    set_handlers opts a = do
      app ←
          set_ante_handler k p.validate p.new_ante_handler a.tx_config (p.max_tx_gas_wanted opts)
            a.app
      a ← set_post_handler (record a { app = app })
      configure_evm_mempool opts a

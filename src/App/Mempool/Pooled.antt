-- ===== src/App/Mempool/Pooled.antt =====
-- What the application checks transactions with, once its handlers are set.
use gnodi.Base.{refl, sym, ap, subst, ◌∙◌, ◌≡◌, Bool, true, false, not, Option, some, if◌then◌else◌}
use gnodi.Base.Partial.{>>=-eq-some, some_inj}
use gnodi.Base.Int.{ℤ, pos, ltb_ℤ}
use gnodi.App.Ante.Handler.{EvmAnte, AnteHandler, handler_options, set_ante_handler}
use gnodi.App.Ante.Handler.Guarded.{IsGuarded, set_ante_handler-IsGuarded}
use gnodi.App.Mempool.{
  PoolSdk, MempoolConfig, PoolApp, create_mempool_config, set_post_handler, with_pool,
  configure_evm_mempool, set_handlers,
}

module _ (k : EvmAnte) (p : PoolSdk k)
    (new_pool : k.EvmKeeper
      → k.FeeMarketKeeper
      → k.TxConfig
      → p.ClientCtx
      → MempoolConfig k p
      → ℤ
      → p.Pool) where
  open p use {Opts, Pool}

  -- The mempool of the application, and every handler that goes with it, is one pool.
  pub record HasPool (pool : Pool) (a : PoolApp k p) : Type 0 where
    pub evm_mempool : a.evm_mempool ≡ some pool
    pub mempool : a.mempool ≡ some pool
    pub check_tx_handler : a.check_tx_handler ≡ some (p.new_check_tx_handler pool)
    pub prepare_handler : a.prepare_handler ≡ some (p.prepare_proposal pool)
    pub process_handler : a.process_handler ≡ some (p.process_proposal pool)

  abbrev wants_pool : Bool → Bool → Bool
  wants_pool has_config is_negative =
      if not has_config then false else if is_negative then false else true

  -- Whether the application gets a pool.
  abbrev pub is_pooled : Opts → Bool
  is_pooled opts = wants_pool p.has_chain_config (ltb_ℤ (p.cosmos_pool_max_tx opts) (pos 0))

  abbrev pub pool_of : Opts → PoolApp k p → Option (AnteHandler k) → Pool
  pool_of opts a handler =
      new_pool a.app.evm_keeper a.app.fee_market_keeper a.tx_config a.client_ctx
        (record {
          ante_handler = handler;
          legacy_pool_config = p.legacy_pool_config opts;
          block_gas_limit = p.block_gas_limit opts;
          min_tip = p.min_tip opts;
        })
        (p.cosmos_pool_max_tx opts)

  pub record HasMempool (opts : Opts) (a a' : PoolApp k p) : Type 0 where
    pub handler : AnteHandler k
    pub post : p.PostHandler
    pub guarded :
        IsGuarded k
          (p.new_ante_handler (handler_options k a.tx_config (p.max_tx_gas_wanted opts) a.app))
          handler
    pub ante : a'.app ≡ record a.app { ante_handler = some handler }
    pub pooled : is_pooled opts ≡ true → HasPool (pool_of opts a (some handler)) a'
    pub plain :
        is_pooled opts ≡ false
        → a' ≡ record a {
          app = record a.app { ante_handler = some handler };
          post_handler = some post;
        }

  with_pool-HasPool : (pool : Pool) (a : PoolApp k p) → HasPool pool (with_pool k p new_pool pool a)
  unfolding with_pool
  with_pool-HasPool pool a = record {
    evm_mempool = refl;
    mempool = refl;
    check_tx_handler = refl;
    prepare_handler = refl;
    process_handler = refl;
  }

  with_pool-app : (pool : Pool) (a : PoolApp k p) → (with_pool k p new_pool pool a).app ≡ a.app
  unfolding with_pool
  with_pool-app pool a = refl

  configure-pooled :
      (opts : Opts) (a : PoolApp k p) {a' : PoolApp k p}
      → configure_evm_mempool k p new_pool opts a ≡ some a'
      → (a'.app ≡ a.app)
        × (is_pooled opts ≡ true → HasPool (pool_of opts a a.app.ante_handler) a')
        × (is_pooled opts ≡ false → a' ≡ a)
  unfolding configure_evm_mempool create_mempool_config
  configure-pooled opts a {a' = a'} h =
      by_tests p.has_chain_config (ltb_ℤ (p.cosmos_pool_max_tx opts) (pos 0)) h
    where
      pool : Pool
      pool = pool_of opts a a.app.ante_handler

      by_tests :
          (b c : Bool)
          → (if not b then some a else if c then some a else some (with_pool k p new_pool pool a))
            ≡ some a'
          → (a'.app ≡ a.app)
            × (wants_pool b c ≡ true → HasPool pool a')
            × (wants_pool b c ≡ false → a' ≡ a)
      by_tests false c h = (sym (ap (λ x. x.app) (some_inj h)), λ e. cc, λ e. sym (some_inj h))
      by_tests true true h = (sym (ap (λ x. x.app) (some_inj h)), λ e. cc, λ e. sym (some_inj h))
      by_tests true false h = (
        sym (ap (λ x. x.app) (some_inj h)) ∙ with_pool-app pool a,
        λ e. subst (HasPool pool) (some_inj h) (with_pool-HasPool pool a),
        λ e. cc,
      )

  -- When the handlers of the application are set, its ante handler answers as the EVM's handler
  -- for the options of the application on a transaction without a hidden message of the EVM, and
  -- refuses every other as unauthorized. Without a chain configuration of the EVM, or with a
  -- negative size of the pool, the mempool and its handlers stay as they were. Otherwise the
  -- mempool is made with that ante handler, and the handlers of CheckTx and of proposals are those
  -- of the same mempool.
  pub set_handlers-HasMempool :
      (opts : Opts) (a a' : PoolApp k p)
      → set_handlers k p new_pool opts a ≡ some a'
      → HasMempool opts a a'
  unfolding set_handlers set_post_handler
  set_handlers-HasMempool opts a a' h =
      let (app1, e1, h1) =
        >>=-eq-some
          (set_ante_handler k p.validate p.new_ante_handler a.tx_config (p.max_tx_gas_wanted opts)
            a.app)
          _ h in
      let (valid, handler, same, guarded) =
        set_ante_handler-IsGuarded k p.validate p.new_ante_handler a.tx_config
          (p.max_tx_gas_wanted opts) a.app e1 in
      let (a2, e2, h2) = >>=-eq-some (set_post_handler k p (record a { app = app1 })) _ h1 in
      let (post, e3, h3) = >>=-eq-some p.new_post_handler _ e2 in
      let ready =
        sym (some_inj h3) ∙ ap (λ x. record a { app = x; post_handler = some post }) same in
      ended handler post guarded (
        configure-pooled opts (set_app handler post)
          (subst (λ x. configure_evm_mempool k p new_pool opts x ≡ some a') ready h2))
    where
      evm : AnteHandler k
      evm = p.new_ante_handler (handler_options k a.tx_config (p.max_tx_gas_wanted opts) a.app)

      set_app : AnteHandler k → p.PostHandler → PoolApp k p
      set_app handler post = record a {
        app = record a.app { ante_handler = some handler };
        post_handler = some post;
      }

      ended :
          (handler : AnteHandler k) (post : p.PostHandler)
          → IsGuarded k evm handler
          → (a'.app ≡ (set_app handler post).app)
            × (is_pooled opts ≡ true → HasPool (pool_of opts a (some handler)) a')
            × (is_pooled opts ≡ false → a' ≡ set_app handler post)
          → HasMempool opts a a'
      ended handler post guarded (ante, pooled, plain) = record {
        handler = handler;
        post = post;
        guarded = guarded;
        ante = ante;
        pooled = pooled;
        plain = plain;
      }

-- ===== src/App/Mempool/Ready.antt =====
-- The handlers of transactions are set, when nothing outside refuses.
use gnodi.Base.{refl, ◌≡◌, ◌∙◌, ap, Bool, true, false, not, ⊤, Option, none, some, if◌then◌else◌}
use gnodi.Base.Int.{ℤ, pos, ltb_ℤ}
use gnodi.Base.Partial.{◌>>=◌}
use gnodi.App.Ante.Handler.{EvmAnte, App, handler_options, set_ante_handler}
use gnodi.App.Mempool.{
  PoolSdk, MempoolConfig, PoolApp, create_mempool_config, set_post_handler, configure_evm_mempool,
  set_handlers,
}
use gnodi.App.Mempool.Pooled.{HasMempool, set_handlers-HasMempool}

module _ (k : EvmAnte) (p : PoolSdk k)
    (new_pool : k.EvmKeeper
      → k.FeeMarketKeeper
      → k.TxConfig
      → p.ClientCtx
      → MempoolConfig k p
      → ℤ
      → p.Pool) where
  open p use {Opts, PostHandler}

  configure_there :
      (opts : Opts) (a : PoolApp k p)
      → (a' : PoolApp k p) × (configure_evm_mempool k p new_pool opts a ≡ some a')
  unfolding configure_evm_mempool create_mempool_config
  configure_there opts a = by_tests p.has_chain_config (ltb_ℤ (p.cosmos_pool_max_tx opts) (pos 0)) _
    where
      by_tests :
          (b c : Bool) (full : PoolApp k p)
          → (a' : PoolApp k p) × ((if not b then some a else if c then some a else some full)
              ≡ some a')
      by_tests false c full = (a, refl)
      by_tests true true full = (a, refl)
      by_tests true false full = (full, refl)

  set_ante_handler_there :
      (opts : Opts) (a : PoolApp k p)
      → p.validate (handler_options k a.tx_config (p.max_tx_gas_wanted opts) a.app) ≡ some tt
      → (app : App k) × (set_ante_handler k p.validate p.new_ante_handler a.tx_config
            (p.max_tx_gas_wanted opts)
            a.app
          ≡ some app)
  unfolding set_ante_handler
  set_ante_handler_there opts a e =
      by_valid (p.validate (handler_options k a.tx_config (p.max_tx_gas_wanted opts) a.app)) _ e
    where
      by_valid :
          (r : Option ⊤) (ready : App k)
          → r ≡ some tt
          → (app : App k) × (elim r [ none ↦ none | some _ ↦ some ready ] ≡ some app)
      by_valid none ready e = cc
      by_valid (some _) ready e = (ready, refl)

  -- When the options of the ante handler are valid and there is a post handler, setting the
  -- handlers of the application does not fail. Its ante handler then answers as the EVM's handler
  -- for the options of the application on a transaction without a hidden message of the EVM, and
  -- refuses every other as unauthorized. Without a chain configuration of the EVM, or with a
  -- negative size of the pool, the mempool and its handlers stay as they were. Otherwise the
  -- mempool is made with that ante handler, and the handlers of CheckTx and of proposals are those
  -- of the same mempool.
  pub set_handlers_there :
      (opts : Opts) (a : PoolApp k p) (post : PostHandler)
      → p.validate (handler_options k a.tx_config (p.max_tx_gas_wanted opts) a.app) ≡ some tt
      → p.new_post_handler ≡ some post
      → (a' : PoolApp k p) × (set_handlers k p new_pool opts a ≡ some a')
        × HasMempool k p new_pool opts a a'
  unfolding set_handlers set_post_handler
  set_handlers_there opts a post e f =
      let (app, h1) = set_ante_handler_there opts a e in
      let (a', h2) = configure_there opts (record a { app = app; post_handler = some post }) in
      let all : set_handlers k p new_pool opts a ≡ some a' =
        ap
          (λ o. o >>= λ x.
            set_post_handler k p (record a { app = x }) >>= configure_evm_mempool k p new_pool opts)
          h1
        ∙ ap
            (λ o.
              (o >>= λ x. some (record a { app = app; post_handler = some x }))
              >>= configure_evm_mempool k p new_pool opts)
            f
        ∙ h2 in
      (a', all, set_handlers-HasMempool k p new_pool opts a a' all)

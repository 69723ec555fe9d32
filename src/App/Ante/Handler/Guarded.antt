-- ===== src/App/Ante/Handler/Guarded.antt =====
-- What the ante handler of the application lets through.
use gnodi.Base.{refl, sym, ℕ, ◌≡◌, Bool, [], ◌∷◌, ⊤, Option, none, some, All}
use gnodi.Base.Partial.{some_inj}
use gnodi.Base.Result.{err}
use gnodi.App.Ante.{CheckError, unauthorized}
use gnodi.App.Ante.Nested.{Admissible, visits_tx, ante_handle_passes, ante_handle_refuses}
use gnodi.App.Ante.Handler.{
  EvmAnte, App, AnteHandler, HandlerOptions, handler_options, limited, set_ante_handler,
  new_group_limiter_decorator,
}

module _ (k : EvmAnte) where
  open k use {TxConfig, Ctx, Tx}

  -- A handler that refuses what hides a message of the EVM, and else is the other.
  pub record IsGuarded (evm guarded : AnteHandler k) : Type 0 where
    pub passes :
        (ctx : Ctx) (tx : Tx) (simulate : Bool)
        → All (Admissible (k.ethereum_tx_url ∷ [])) (visits_tx (k.get_msgs tx))
        → guarded ctx tx simulate ≡ evm ctx tx simulate
    pub refuses :
        (ctx : Ctx) (tx : Tx) (simulate : Bool)
        → ¬ All (Admissible (k.ethereum_tx_url ∷ [])) (visits_tx (k.get_msgs tx))
        → (e : CheckError) × (guarded ctx tx simulate ≡ err (unauthorized e))

  limited-IsGuarded :
      (evm : AnteHandler k)
      → IsGuarded evm (limited k (new_group_limiter_decorator (k.ethereum_tx_url ∷ [])) evm)
  unfolding limited new_group_limiter_decorator
  limited-IsGuarded evm = record {
    passes = λ ctx tx simulate h.
        ante_handle_passes (k.ethereum_tx_url ∷ []) (k.get_msgs tx) (λ c. evm c tx simulate) ctx h;
    refuses = λ ctx tx simulate h.
        ante_handle_refuses (k.ethereum_tx_url ∷ []) (k.get_msgs tx) (λ c. evm c tx simulate) ctx h;
  }

  -- When the options are valid, the application has an ante handler that answers as the EVM's
  -- handler for the options of the application on a transaction without a hidden message of the
  -- EVM, and refuses every other as unauthorized; the rest of the application stays. When they are
  -- not valid, there is no application.
  pub set_ante_handler-IsGuarded :
      (validate : HandlerOptions k → Option ⊤) (new_ante_handler : HandlerOptions k → AnteHandler k)
      (tx_config : TxConfig) (max_gas_wanted : ℕ) (app : App k) {app' : App k}
      → set_ante_handler k validate new_ante_handler tx_config max_gas_wanted app ≡ some app'
      → (validate (handler_options k tx_config max_gas_wanted app) ≡ some tt)
        × (handler : AnteHandler k) × (app' ≡ record app { ante_handler = some handler })
        × IsGuarded (new_ante_handler (handler_options k tx_config max_gas_wanted app)) handler
  unfolding set_ante_handler
  set_ante_handler-IsGuarded validate new_ante_handler tx_config max_gas_wanted app {app' = app'}
        h =
      by_result (validate options) h
    where
      options : HandlerOptions k
      options = handler_options k tx_config max_gas_wanted app

      guarded : AnteHandler k
      guarded =
          limited k (new_group_limiter_decorator (k.ethereum_tx_url ∷ []))
            (new_ante_handler options)

      by_result :
          (r : Option ⊤)
          → elim r [ none ↦ none | some _ ↦ some (record app { ante_handler = some guarded }) ]
            ≡ some app'
          → (r ≡ some tt)
            × (handler : AnteHandler k) × (app' ≡ record app { ante_handler = some handler })
            × IsGuarded (new_ante_handler options) handler
      by_result none e = cc
      by_result (some _) e =
          (refl, guarded, sym (some_inj e), limited-IsGuarded (new_ante_handler options))

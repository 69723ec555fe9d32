-- ===== src/App/Tests/Ante.antt =====
-- The ante handler of the application and its listeners, on small data.
use gnodi.Base.{
  refl, arith, ℕ, ◌+◌, ◌≡◌, List, [], ◌∷◌, ◌++◌, ⊤, Option, none, some, ◌==◌, if◌then◌else◌,
}
use gnodi.Base.Text.{bytes}
use gnodi.Base.Result.{ok}
use gnodi.App.Ante.{Msg}
use gnodi.App.Ante.Handler.{
  EvmAnte, App, AnteHandler, Listener, HandlerOptions, handler_options, limited, set_ante_handler,
  new_group_limiter_decorator,
}
use gnodi.App.Ante.Handler.Guarded.{IsGuarded, set_ante_handler-IsGuarded}
use gnodi.App.Ante.Handler.Listeners.{registers, pending, hashes, happen, IsHeard, happen_hears}

-- The world holds what each listener has heard.
abbrev pub toy : EvmAnte
toy = record {
  Codec = ⊤;
  AccountKeeper = ⊤;
  BankKeeper = ⊤;
  EvmKeeper = ⊤;
  FeegrantKeeper = ⊤;
  IbcKeeper = ⊤;
  FeeMarketKeeper = ⊤;
  TxConfig = ⊤;
  SignModeHandler = ⊤;
  ExtensionOptionChecker = ⊤;
  SigGasConsumer = ⊤;
  Ctx = ℕ;
  Tx = List Msg;
  Hash = ℕ;
  World = ℕ → List ℕ;
  get_msgs = λ tx. tx;
  sign_mode_handler = λ c. c;
  has_dynamic_fee_extension_option = tt;
  sig_verification_gas_consumer = tt;
  ethereum_tx_url = bytes "/cosmos.evm.vm.v1.MsgEthereumTx";
}

abbrev pub toy_app : App toy
toy_app = record {
  app_codec = tt;
  account_keeper = tt;
  bank_keeper = tt;
  evm_keeper = tt;
  fee_grant_keeper = tt;
  ibc_keeper = tt;
  fee_market_keeper = tt;
  pending_tx_listeners = [];
  ante_handler = none;
}

abbrev pub toy_validate : HandlerOptions toy → Option ⊤
toy_validate options = some tt

-- The handler counts the gas that is wanted.
abbrev pub toy_evm : HandlerOptions toy → AnteHandler toy
toy_evm options ctx tx simulate = ok (ctx + options.max_tx_gas_wanted)

abbrev pub toy_options : HandlerOptions toy
toy_options = handler_options toy tt 5 toy_app

abbrev ready_app : App toy
ready_app = record toy_app {
  ante_handler =
      some (
        limited toy (new_group_limiter_decorator (toy.ethereum_tx_url ∷ [])) (toy_evm toy_options));
}

is_ready : set_ante_handler toy toy_validate toy_evm tt 5 toy_app ≡ some ready_app
unfolding set_ante_handler
is_ready = refl

set_ante_handler-IsGuarded_example :
    (toy_validate toy_options ≡ some tt)
    × (handler : AnteHandler toy) × (ready_app ≡ record toy_app { ante_handler = some handler })
    × IsGuarded toy (toy_evm toy_options) handler
set_ante_handler-IsGuarded_example =
    set_ante_handler-IsGuarded toy toy_validate toy_evm tt 5 toy_app is_ready

abbrev toy_listener : ℕ → Listener toy
toy_listener i h w = λ j. if j == i then w j ++ h ∷ [] else w j

abbrev toy_heard : ℕ → toy.World → List ℕ
toy_heard i w = w i

toy-IsHeard : IsHeard toy toy_listener toy_heard
toy-IsHeard = record { own = λ i h w. ground arith; others = λ i j h w n. ground (arith, n) }

-- Hash 7 is pending before listener 1 is registered, 8 and 9 after it.
happen_hears_example :
    toy_heard 1
      (happen toy toy_listener toy_heard
        ((registers 0 ∷ pending 7 ∷ []) ++ registers 1 ∷ (pending 8 ∷ registers 2 ∷ pending 9 ∷ []))
        toy_app
        (λ j. [])).1
    ≡ [] ++ (8 ∷ 9 ∷ [])
unfolding hashes
happen_hears_example =
    happen_hears toy toy_listener toy_heard toy-IsHeard 1 (registers 0 ∷ pending 7 ∷ [])
      (pending 8 ∷ registers 2 ∷ pending 9 ∷ []) toy_app (λ j. []) [] refl tt
      (λ e. omega (arith, e), (tt, tt)) (tt, (λ e. omega (arith, e), (tt, tt)))

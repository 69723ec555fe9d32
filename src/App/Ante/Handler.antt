-- ===== src/App/Ante/Handler.antt =====
-- app/ante.go: the ante handler of the application, and the listeners of pending transactions of
-- app/ante.go and app/app.go. The keepers, the EVM's handler and the listeners are outside the
-- repository.
pub mod Guarded
pub mod Listeners
use gnodi.Base.{ℕ, Bool, false, List, [], ◌∷◌, ◌++◌, ⊤, Option, none, some}
use gnodi.Base.Text.{Bytes}
use gnodi.Base.Result.{Result}
use gnodi.Base.Action.{Action, ◌>>=◌, ◌>>◌, pure, try, have}
use gnodi.App.Ante.{Msg, AnteError, ante_handle}

-- The types of what the options hold, and the packages the code calls.
pub record EvmAnte : Type 1 where
  pub Codec : Type 0
  pub AccountKeeper : Type 0
  pub BankKeeper : Type 0
  pub EvmKeeper : Type 0
  pub FeegrantKeeper : Type 0
  pub IbcKeeper : Type 0
  pub FeeMarketKeeper : Type 0
  pub TxConfig : Type 0
  pub SignModeHandler : Type 0
  pub ExtensionOptionChecker : Type 0
  pub SigGasConsumer : Type 0
  pub Ctx : Type 0
  pub Tx : Type 0
  pub Hash : Type 0
  pub World : Type 0
  pub get_msgs : Tx → List Msg
  pub sign_mode_handler : TxConfig → SignModeHandler
  pub has_dynamic_fee_extension_option : ExtensionOptionChecker
  pub sig_verification_gas_consumer : SigGasConsumer
  -- `sdk.MsgTypeURL(&evmtypes.MsgEthereumTx{})`
  pub ethereum_tx_url : Bytes

pub record GroupLimiter : Type 0 where
  pub disabled_msg_types : List Bytes

unfoldable pub new_group_limiter_decorator : List Bytes → GroupLimiter
new_group_limiter_decorator disabled_msg_types = record { disabled_msg_types = disabled_msg_types }

module _ (k : EvmAnte) where
  open k use {Codec, AccountKeeper, BankKeeper, EvmKeeper, FeegrantKeeper, IbcKeeper}
  open k use {FeeMarketKeeper, TxConfig, SignModeHandler, ExtensionOptionChecker}
  open k use {SigGasConsumer, Ctx, Tx, Hash, World}

  -- A context, a transaction, and whether it is simulated.
  abbrev pub AnteHandler : Type 0
  AnteHandler = Ctx → Tx → Bool → Result AnteError Ctx

  abbrev pub Listener : Type 0
  Listener = Hash → World → World

  pub record App : Type 0 where
    pub app_codec : Codec
    pub account_keeper : AccountKeeper
    pub bank_keeper : BankKeeper
    pub evm_keeper : EvmKeeper
    pub fee_grant_keeper : FeegrantKeeper
    pub ibc_keeper : IbcKeeper
    pub fee_market_keeper : FeeMarketKeeper
    pub pending_tx_listeners : List Listener
    pub ante_handler : Option AnteHandler

  -- The listener is a method of the application: it reads the listeners when it is called.
  pub record HandlerOptions : Type 0 where
    pub cdc : Codec
    pub account_keeper : AccountKeeper
    pub bank_keeper : BankKeeper
    pub extension_option_checker : ExtensionOptionChecker
    pub evm_keeper : EvmKeeper
    pub feegrant_keeper : FeegrantKeeper
    pub ibc_keeper : IbcKeeper
    pub fee_market_keeper : FeeMarketKeeper
    pub sign_mode_handler : SignModeHandler
    pub sig_gas_consumer : SigGasConsumer
    pub max_tx_gas_wanted : ℕ
    pub dynamic_fee_checker : Bool
    pub pending_tx_listener : App → Hash → World → World

  -- The loop over the listeners.
  unfoldable pub call_listeners : List Listener → Hash → World → World
  call_listeners [] hash w = w
  call_listeners (listener ∷ rest) hash w = call_listeners rest hash (listener hash w)

  unfoldable pub on_pending_tx : App → Hash → World → World
  on_pending_tx app hash w = call_listeners app.pending_tx_listeners hash w

  unfoldable pub register_pending_tx_listener : Listener → App → App
  register_pending_tx_listener listener app = record app {
    pending_tx_listeners = app.pending_tx_listeners ++ listener ∷ [];
  }

  unfoldable pub handler_options : TxConfig → ℕ → App → HandlerOptions
  handler_options tx_config max_gas_wanted app = record {
    cdc = app.app_codec;
    account_keeper = app.account_keeper;
    bank_keeper = app.bank_keeper;
    extension_option_checker = k.has_dynamic_fee_extension_option;
    evm_keeper = app.evm_keeper;
    feegrant_keeper = app.fee_grant_keeper;
    ibc_keeper = app.ibc_keeper;
    fee_market_keeper = app.fee_market_keeper;
    sign_mode_handler = k.sign_mode_handler tx_config;
    sig_gas_consumer = k.sig_verification_gas_consumer;
    max_tx_gas_wanted = max_gas_wanted;
    dynamic_fee_checker = false;
    pending_tx_listener = on_pending_tx;
  }

  -- The limiter in front of another handler.
  unfoldable pub limited : GroupLimiter → AnteHandler → AnteHandler
  limited g next ctx tx simulate =
      ante_handle g.disabled_msg_types (k.get_msgs tx) (λ c. next c tx simulate) ctx

  -- `options.Validate`, whose error is a panic, and `evmante.NewAnteHandler` are given.
  module _ (validate : HandlerOptions → Option ⊤)
      (new_ante_handler : HandlerOptions → AnteHandler) where
    unfoldable pub set_ante_handler : TxConfig → ℕ → App → Option App
    set_ante_handler tx_config max_gas_wanted app =
        let options = handler_options tx_config max_gas_wanted app in
        let group_limiter = new_group_limiter_decorator (k.ethereum_tx_url ∷ []) in
        elim (validate options) [
          | none ↦ none
          | some _ ↦ some (record app {
            ante_handler = some (limited group_limiter (new_ante_handler options));
          })
        ]

-- ===== src/Gnodid/Root.antt =====
-- cmd/gnodid/cmd/root.go and config.go: what runs before every command. The flags, the files of the
-- client configuration, the client context and the server are outside the repository; the writers of
-- the command are left out.
pub mod Ready
use gnodi.Base.{Bool, not, List, [], ◌∷◌, ◌++◌, Option, ⊤, if◌then◌else◌}
use gnodi.Base.Action.{Action, Call, ◌>>=◌, ◌>>◌, pure, gets, try, have}

pub data PreRunError : Type 0 where
  bad_flags bad_client_config bad_tx_config context_not_set not_intercepted : PreRunError

pub record RootSdk : Type 1 where
  pub State : Type 0
  pub Ctx : Type 0
  pub Flags : Type 0
  pub Codec : Type 0
  pub SignMode : Type 0
  pub Query : Type 0
  pub TxConfig : Type 0
  pub Template : Type 0
  pub ServerConfig : Type 0
  pub CmtConfig : Type 0
  pub with_cmd_context : State → Ctx → Ctx
  pub read_persistent_command_flags : Flags → Ctx → Option Ctx
  -- It writes the files of a client configuration that is missing.
  pub read_from_client_config : Ctx → Call State Ctx
  pub offline : Ctx → Bool
  pub codec : Ctx → Codec
  pub default_sign_modes : List SignMode
  pub sign_mode_textual : SignMode
  pub new_grpc_coin_metadata_query : Ctx → Query
  pub new_tx_config : Codec → List SignMode → Query → Option TxConfig
  pub with_tx_config : TxConfig → Ctx → Ctx
  pub set_cmd_client_context : Ctx → Call State ⊤
  pub default_config_template : Template
  pub default_server_config : ServerConfig
  pub default_cmt_config : CmtConfig
  pub intercept_configs : Template → ServerConfig → CmtConfig → Call State ⊤

module _ (k : RootSdk) where
  open k use {State, Ctx, Flags, Template, ServerConfig, CmtConfig}

  unfoldable pub init_comet_bft_config : CmtConfig
  init_comet_bft_config = k.default_cmt_config

  -- The configuration is that of the server, embedded.
  unfoldable pub init_app_config : Template × ServerConfig
  init_app_config = (k.default_config_template, k.default_server_config)

  -- The context of a node that is online signs textually, by the metadata that it queries.
  unfoldable pub with_textual : Ctx → Action PreRunError State Ctx
  with_textual ctx = do
    let enabled_sign_modes = k.default_sign_modes ++ k.sign_mode_textual ∷ []
    tx_config ←
        have (k.new_tx_config (k.codec ctx) enabled_sign_modes (k.new_grpc_coin_metadata_query ctx))
          bad_tx_config
    pure (k.with_tx_config tx_config ctx)

  unfoldable pub tx_context : Ctx → Action PreRunError State Ctx
  tx_context ctx = if not (k.offline ctx) then with_textual ctx else pure ctx

  unfoldable pub install : Ctx → Action PreRunError State ⊤
  install ctx = do
    try (k.set_cmd_client_context ctx) context_not_set
    let (custom_app_template, custom_app_config) = init_app_config
    let custom_cmt_config = init_comet_bft_config
    try (k.intercept_configs custom_app_template custom_app_config custom_cmt_config)
        not_intercepted

  -- `PersistentPreRunE`, from the context that `NewRootCmd` has made.
  unfoldable pub persistent_pre_run : Flags → Ctx → Action PreRunError State ⊤
  persistent_pre_run flags init_client_ctx = do
    ctx ← gets (λ s. k.with_cmd_context s init_client_ctx)
    ctx ← have (k.read_persistent_command_flags flags ctx) bad_flags
    ctx ← try (k.read_from_client_config ctx) bad_client_config
    ctx ← tx_context ctx
    install ctx

-- ===== src/Gnodid/Tests/Root.antt =====
-- What runs before a command, on a small context: its second part is whether it signs textually.
use gnodi.Base.{refl, ◌≡◌, ℕ, false, List, [], ◌∷◌, some, ⊤}
use gnodi.Base.Result.{ok}
use gnodi.Gnodid.Root.{
  RootSdk, persistent_pre_run, install, tx_context, with_textual, init_app_config,
  init_comet_bft_config,
}

-- The state is the context of the command.
abbrev small : RootSdk
small = record {
  State = List ℕ;
  Ctx = List ℕ;
  Flags = ℕ;
  Codec = ⊤;
  SignMode = ℕ;
  Query = ⊤;
  TxConfig = List ℕ;
  Template = ⊤;
  ServerConfig = ⊤;
  CmtConfig = ⊤;
  with_cmd_context = λ s ctx. ctx;
  read_persistent_command_flags = λ flags ctx. some ctx;
  read_from_client_config = λ ctx s. (some ctx, s);
  offline = λ ctx. false;
  codec = λ ctx. tt;
  default_sign_modes = 1 ∷ [];
  sign_mode_textual = 2;
  new_grpc_coin_metadata_query = λ ctx. tt;
  new_tx_config = λ codec modes query. some modes;
  with_tx_config = λ config ctx. config;
  set_cmd_client_context = λ ctx s. (some tt, ctx);
  default_config_template = tt;
  default_server_config = tt;
  default_cmt_config = tt;
  intercept_configs = λ template server cmt s. (some tt, s);
}

is_run : persistent_pre_run small 0 [] [] ≡ (ok tt, 1 ∷ 2 ∷ [])
unfolding persistent_pre_run install tx_context with_textual init_app_config init_comet_bft_config
is_run = refl

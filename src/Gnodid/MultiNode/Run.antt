-- ===== src/Gnodid/MultiNode/Run.antt =====
-- The whole command: `initTestnetFiles` and the run function of `NewTestnetMultiNodeCmd`.
pub mod Disk
pub mod Copies
pub mod Start
use gnodi.Base.{
  ℕ, zero, suc, Bool, true, false, List, [], ◌∷◌, ◌++◌, Option, some, none, ⊤, if◌then◌else◌,
}
use gnodi.Base.Text.{Bytes, bytes, bytes_equal}
use gnodi.Base.Result.{Result, ok, err}
use gnodi.Base.Action.{Action, ◌>>=◌, ◌>>◌, pure, stop, each}
use gnodi.Base.Int.{ℤ, pos, negsuc}
use gnodi.Gnodid.MultiNode.Env.{Env, NodeConfig, AppConfig, InitError, panicked}
use gnodi.Gnodid.MultiNode.Args.{Flags, new_args}
use gnodi.Gnodid.MultiNode.Files.{copy_file, is_sub_dir, generate_random_string}
use gnodi.Gnodid.MultiNode.Node.{Step, Args, Vars, init_nodes}
use gnodi.Gnodid.MultiNode.Genesis.{init_gen_files, collect_gen_files, gentxs_dir_of}

module _ (k : Env) where
  open k use {State, NodeOther, AppOther, default_bond_denom}

  unfoldable pub random_chain_id : Args k → Step k (Args k)
  random_chain_id args = do
    name ← generate_random_string k 6
    pure (record args { chain_id = bytes "chain-" ++ name })

  unfoldable pub with_chain_id : Args k → Step k (Args k)
  with_chain_id args = if bytes_equal args.chain_id [] then random_chain_id args else pure args

  -- The second write of the gas price replaces the first: the field is the embedded one.
  unfoldable pub app_config : Args k → AppConfig AppOther
  app_config args =
      let priced = record (k.default_app_config) {
        min_gas_prices = args.min_gas_prices;
        api_enable = false;
      } in
      record priced {
        min_gas_prices = bytes "0.0001" ++ default_bond_denom;
        enable_hostname_label = false;
        telemetry_enabled = false;
        prometheus_retention_time = 0;
      }

  -- A file is left out where it lies in the directory, or where the answer is an error.
  unfoldable pub copy_gentx : Args k → ℕ → Bytes → Step k ⊤
  copy_gentx args i file s =
      let (r, s') = is_sub_dir k file (gentxs_dir_of k args i) s in
      let copied = (copy_file k file (gentxs_dir_of k args i) >> pure tt) s' in
      elim r [ err e ↦ (ok tt, s') | ok inside ↦ if inside then (ok tt, s') else copied ]

  unfoldable pub copy_gentxs : Args k → List Bytes → ℕ → ℕ → Step k ⊤
  copy_gentxs args files zero i = pure tt
  copy_gentxs args files (suc n) i = do
    each (copy_gentx args i) files
    copy_gentxs args files n (suc i)

  -- Arrays of a negative length panic.
  unfoldable pub count : ℤ → Result InitError ℕ
  count (pos n) = ok n
  count (negsuc n) = err panicked

  unfoldable pub no_nodes : Args k → NodeConfig NodeOther → Vars k
  no_nodes args config = record {
    node_config = config;
    app_config = app_config args;
    node_ids = [];
    val_pub_keys = [];
    gen_accounts = [];
    gen_balances = [];
    gen_files = [];
    persistent_peers = [];
    gentxs_files = [];
  }

  -- What follows the loop over the nodes.
  unfoldable pub share_files : Args k → ℕ → Vars k → Step k ⊤
  share_files args n vars = do
    init_gen_files k args.chain_id vars.gen_accounts vars.gen_balances vars.gen_files n
    copy_gentxs args vars.gentxs_files n 0
    collect_gen_files k args vars.persistent_peers vars.node_ids vars.val_pub_keys n
        vars.node_config

  -- With the chain id and the number of nodes.
  unfoldable pub init_counted : NodeConfig NodeOther → Args k → ℕ → Step k ⊤
  init_counted config args n = init_nodes k args n 0 (no_nodes args config) >>= share_files args n

  unfoldable pub init_testnet_files : NodeConfig NodeOther → Args k → Step k ⊤
  init_testnet_files config given = do
    args ← with_chain_id given
    n ← (λ s. (count args.num_validators, s))
    init_counted config args n

  unfoldable pub run : NodeConfig NodeOther → Flags → Step k ⊤
  run config flags = do args ← (λ s. (new_args k flags, s)); init_testnet_files config args

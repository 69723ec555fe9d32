-- ===== src/Gnodid/Tests/Options.antt =====
-- An export and a node on small options, whose application is the state it was opened in.
use gnodi.Base.{refl, ◌≡◌, ℕ, true, false, List, [], some, ⊤}
use gnodi.Base.Text.{Bytes, bytes, bytes_equal}
use gnodi.Base.Result.{ok}
use gnodi.Base.Int.{pos}
use gnodi.Gnodid.Options.{
  Options, get_chain_id_from_opts, home_of, open_app, export_opened, app_export,
}
use gnodi.Gnodid.Options.Exported.{IsExported, app_export-IsExported}
use gnodi.Gnodid.Options.Node.{NodeSdk, BaseOption, base_options, new_app}

-- The options are the flag of the chain id.
abbrev small : Options
small = record {
  Opts = Bytes;
  State = ℕ;
  App = ℕ;
  Exported = ℕ;
  chain_id_text = λ opts. opts;
  home_text = λ opts. bytes "/home";
  home_string = λ opts. some (bytes "/home");
  is_viper = λ opts. true;
  set_inv_check_period = λ n opts. opts;
  chain_id_from_home = λ home. some (bytes "gnodi");
  new = λ latest opts chain_id s. (s, s);
  load_height = λ app height s. (some tt, 8);
  export = λ app zero allowed modules s. (some s, s);
}

is_exported : app_export small (pos 5) true [] [] [] 3 ≡ (ok 8, 8)
unfolding app_export export_opened home_of open_app get_chain_id_from_opts bytes_equal
is_exported = refl

app_export-IsExported_example : IsExported small (pos 5) true [] [] [] 3 8 8
app_export-IsExported_example = app_export-IsExported small (pos 5) true [] [] [] 3 8 8 is_exported

abbrev node : NodeSdk small
node = record {
  Cache = ⊤;
  Pruning = ℕ;
  SnapshotStore = ℕ;
  new_cache = tt;
  pruning_options = λ opts. some 2;
  snapshot_store = λ opts s. (some 1, s);
  inter_block_cache = λ opts. true;
  snapshot_interval = λ opts. 0;
  snapshot_keep_recent = λ opts. 2;
  min_gas_prices = λ opts. bytes "0uGNOD";
  query_gas_limit = λ opts. 0;
  halt_height = λ opts. 0;
  halt_time = λ opts. 0;
  min_retain_blocks = λ opts. 0;
  trace = λ opts. false;
  index_events = λ opts. [];
  iavl_cache_size = λ opts. pos 100;
  iavl_disable_fast_node = λ opts. false;
}

abbrev start_node : Bytes → List (BaseOption small node) → ℕ → ℕ × ℕ
start_node opts options s = (s, s)

is_started : new_app small node start_node [] 3 ≡ (ok 3, 3)
unfolding new_app base_options get_chain_id_from_opts bytes_equal
is_started = refl

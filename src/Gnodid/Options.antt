-- ===== src/Gnodid/Options.antt =====
-- cmd/gnodid/cmd/commands.go: the chain id, and the export of a chain that is stored.
pub mod Exported
pub mod Node
use gnodi.Base.{ℕ, Bool, true, false, List, [], Option, some, none, ⊤, if◌then◌else◌}
use gnodi.Base.Text.{Bytes, bytes_equal}
use gnodi.Base.Result.{ok}
use gnodi.Base.Action.{Action, Call, ◌>>=◌, ◌>>◌, pure, stop, try, have}
use gnodi.Base.Int.{ℤ, negsuc, eqb_ℤ}

pub data ExportError : Type 0 where
  home_not_set not_viper no_chain_id not_loaded not_exported : ExportError

-- `appOpts`: its texts by key, whether it is a `viper.Viper`, and what is set in it.
pub record Options : Type 1 where
  pub Opts : Type 0
  pub State : Type 0
  pub App : Type 0
  pub Exported : Type 0
  -- `cast.ToString(appOpts.Get(...))` for the flags of the chain id and of the home
  pub chain_id_text : Opts → Bytes
  pub home_text : Opts → Bytes
  -- `appOpts.Get(flags.FlagHome).(string)`
  pub home_string : Opts → Option Bytes
  pub is_viper : Opts → Bool
  pub set_inv_check_period : ℕ → Opts → Opts
  pub chain_id_from_home : Bytes → Option Bytes
  -- `app.New`, with the chain id and whether it loads the latest version
  pub new : Bool → Opts → Bytes → State → App × State
  pub load_height : App → ℤ → Call State ⊤
  pub export : App → Bool → List Bytes → List Bytes → Call State Exported

module _ (k : Options) where
  open k use {Opts, State, App, Exported}

  abbrev Step : Type 0 → Type 0
  Step A = Action ExportError State A

  -- The flag, or the client configuration of the home directory.
  unfoldable pub get_chain_id_from_opts : Opts → Option Bytes
  get_chain_id_from_opts opts =
      let chain_id = k.chain_id_text opts in
      if bytes_equal chain_id [] then k.chain_id_from_home (k.home_text opts) else some chain_id

  unfoldable pub home_of : Opts → Option Bytes
  home_of opts = elim (k.home_string opts) [
    | none ↦ none
    | some path ↦ if bytes_equal path [] then none else some path
  ]

  -- The application, at a height that is not -1 or at the latest version.
  unfoldable pub open_app : ℤ → Opts → Bytes → Step App
  open_app height opts chain_id s =
      let (latest, s1) = k.new true opts chain_id s in
      let (app, s2) = k.new false opts chain_id s in
      if eqb_ℤ height (negsuc 0)
      then (ok latest, s1)
      else (try (k.load_height app height) not_loaded >> pure app) s2

  unfoldable pub export_opened : ℤ → Bool → List Bytes → Opts → List Bytes → Step Exported
  export_opened height for_zero_height jail_allowed opts modules = do
    chain_id ← have (get_chain_id_from_opts opts) no_chain_id
    app ← open_app height opts chain_id
    try (k.export app for_zero_height jail_allowed modules) not_exported

  unfoldable pub app_export : ℤ → Bool → List Bytes → Opts → List Bytes → Step Exported
  app_export height for_zero_height jail_allowed given modules = do
    home ← have (home_of given) home_not_set
    if k.is_viper given then pure tt else stop not_viper
    export_opened height for_zero_height jail_allowed (k.set_inv_check_period 1 given) modules

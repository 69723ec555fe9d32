-- ===== src/Gnodid/Options/Exported.antt =====
-- What an export of a stored chain has done when it ended well.
use gnodi.Base.{
  arith, refl, ap, subst, ◌∙◌, ◌≡◌, ◌≢◌, Bool, true, false, List, [], Option, none, some, ⊤,
  if◌then◌else◌,
}
use gnodi.Base.Text.{Bytes, bytes_equal, bytes_equal_iff}
use gnodi.Base.Result.{ok, err}
use gnodi.Base.Action.{Action, pure, stop, try, ◌>>◌, bind-ok, try-ok, try-then, have-then}
use gnodi.Base.Int.{ℤ, negsuc, eqb_ℤ}
use gnodi.Gnodid.Options.{
  Options, ExportError, home_not_set, not_viper, no_chain_id, not_loaded, not_exported,
  get_chain_id_from_opts, home_of, open_app, export_opened, app_export,
}

module _ (k : Options) where
  open k use {Opts, State, App, Exported}

  -- The chain id: the flag, or that of the client configuration when the flag is empty.
  pub record IsChainId (opts : Opts) (chain_id : Bytes) : Type 0 where
    pub flag : k.chain_id_text opts ≢ [] → chain_id ≡ k.chain_id_text opts
    pub config : k.chain_id_text opts ≡ [] → k.chain_id_from_home (k.home_text opts) ≡ some chain_id

  -- The application that is opened: the latest version for the height -1, else the height's.
  pub record IsOpened (height : ℤ) (opts : Opts) (chain_id : Bytes) (s : State) (app : App)
      (s' : State) : Type 0 where
    pub latest : eqb_ℤ height (negsuc 0) ≡ true → k.new true opts chain_id s ≡ (app, s')
    pub loaded :
        eqb_ℤ height (negsuc 0) ≡ false
        → (between : State) × (k.new false opts chain_id s ≡ (app, between))
          × (k.load_height app height between ≡ (some tt, s'))

  pub record IsExported (height : ℤ) (for_zero_height : Bool) (jail_allowed : List Bytes)
      (given : Opts) (modules : List Bytes) (s : State) (exported : Exported) (s' : State)
      : Type 0 where
    pub home : Bytes
    pub has_home : (k.home_string given ≡ some home) × (home ≢ [])
    pub is_viper : k.is_viper given ≡ true
    pub chain_id : Bytes
    pub chain : IsChainId (k.set_inv_check_period 1 given) chain_id
    pub app : App
    pub opened : State
    pub opens : IsOpened height (k.set_inv_check_period 1 given) chain_id s app opened
    pub exports : k.export app for_zero_height jail_allowed modules opened ≡ (some exported, s')

  get_chain_id_from_opts-IsChainId :
      (opts : Opts) (chain_id : Bytes)
      → get_chain_id_from_opts k opts ≡ some chain_id
      → IsChainId opts chain_id
  unfolding get_chain_id_from_opts
  get_chain_id_from_opts-IsChainId opts chain_id h = record {
    flag = λ n. ground (arith, bytes_equal_iff (k.chain_id_text opts) []);
    config = λ e. ground (arith, bytes_equal_iff (k.chain_id_text opts) []);
  }

  home_of-some :
      (opts : Opts) (home : Bytes)
      → home_of k opts ≡ some home
      → (k.home_string opts ≡ some home) × (home ≢ [])
  unfolding home_of
  home_of-some opts home h = by_home (k.home_string opts) h
    where
      by_home :
          (o : Option Bytes)
          → elim o [ none ↦ none | some path ↦ if bytes_equal path [] then none else some path ]
            ≡ some home
          → (o ≡ some home) × (home ≢ [])
      by_home none h = cc
      by_home (some path) h = ground (arith, bytes_equal_iff path [])

  open_app-IsOpened :
      (height : ℤ) (opts : Opts) (chain_id : Bytes) (s : State) {app : App} {s' : State}
      → open_app k height opts chain_id s ≡ (ok app, s')
      → IsOpened height opts chain_id s app s'
  unfolding open_app
  open_app-IsOpened height opts chain_id s {app = app} {s' = s'} h =
      by_height (eqb_ℤ height (negsuc 0)) refl h
    where
      apart : {b : Bool} → b ≡ true → b ≡ false → ⊥
      apart e f = cc

      old : App × State
      old = k.new false opts chain_id s

      by_height :
          (b : Bool)
          → eqb_ℤ height (negsuc 0) ≡ b
          → (if b
              then (ok (k.new true opts chain_id s).0, (k.new true opts chain_id s).1)
              else (try (k.load_height old.0 height) not_loaded >> pure old.0) old.1)
            ≡ (ok app, s')
          → IsOpened height opts chain_id s app s'
      by_height true e h = record {
        latest = λ _.
            ap (λ r. elim r.0 [ ok x ↦ (x, r.1) | err _ ↦ (app, s') ])
              {x = (ok (k.new true opts chain_id s).0, (k.new true opts chain_id s).1)}
              {y = (ok app, s')} h;
        loaded = λ d. absurd (apart e d);
      }
      by_height false e h =
          let (u, loaded, h1) = try-then (k.load_height old.0 height old.1) not_loaded _ h in
          let same = ap (λ r. elim r.0 [ ok x ↦ x | err _ ↦ app ]) h1 in
          record {
            latest = λ d. absurd (apart d e);
            loaded = λ _. (
              old.1,
              ap (λ x. (x, old.1)) same,
              subst (λ x. k.load_height x height old.1 ≡ (some tt, s')) same
                  (loaded ∙ ap (λ r. (some tt, r.1)) h1),
            );
          }

  viper_ok :
      {A : Type 0} (b : Bool) (m : Action ExportError State A) (s : State) {r : A} {s' : State}
      → ((if b then pure tt else stop {A = ⊤} not_viper) >> m) s ≡ (ok r, s')
      → (b ≡ true) × (m s ≡ (ok r, s'))
  viper_ok true m s h = (refl, h)
  viper_ok false m s h = cc

  -- An export that ended well was given a home directory and options of viper. The application was
  -- opened with the option for the period of the invariant checks set to 1, for the chain id of
  -- the flag, or of the client configuration when the flag is empty; it is at the latest version
  -- for the height -1 and at the height otherwise; and what is returned is the export of that
  -- application.
  pub app_export-IsExported :
      (height : ℤ) (for_zero_height : Bool) (jail_allowed : List Bytes) (given : Opts)
      (modules : List Bytes) (s : State) (exported : Exported) (s' : State)
      → app_export k height for_zero_height jail_allowed given modules s ≡ (ok exported, s')
      → IsExported height for_zero_height jail_allowed given modules s exported s'
  unfolding app_export export_opened
  app_export-IsExported height for_zero_height jail_allowed given modules s exported s' h =
      let (home, e1, h1) = have-then s (home_of k given) home_not_set _ h in
      let opts = k.set_inv_check_period 1 given in
      let (v, h2) =
        viper_ok (k.is_viper given)
          (export_opened k height for_zero_height jail_allowed opts modules) s h1 in
      let (chain_id, e3, h3) = have-then s (get_chain_id_from_opts k opts) no_chain_id _ h2 in
      let (app, s1, e4, h4) =
        bind-ok (open_app k height opts chain_id)
          (λ app. try (k.export app for_zero_height jail_allowed modules) not_exported) s h3 in
      record {
        home = home;
        has_home = home_of-some given home e1;
        is_viper = v;
        chain_id = chain_id;
        chain = get_chain_id_from_opts-IsChainId opts chain_id e3;
        app = app;
        opened = s1;
        opens = open_app-IsOpened height opts chain_id s e4;
        exports = try-ok (k.export app for_zero_height jail_allowed modules) not_exported s1 h4;
      }

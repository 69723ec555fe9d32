-- ===== src/Gnodid/Options/Node.antt =====
-- cmd/gnodid/cmd/commands.go: the application that a node runs. The values of the options, the stores
-- of snapshots and the base application are outside the repository.
use gnodi.Base.{
  sym, subst, ap, ◌∙◌, ◌≡◌, ◌≢◌, ℕ, Bool, false, Bool-cases, inl, inr, List, [], ◌∷◌, Option, none,
  some, if◌then◌else◌,
}
use gnodi.Base.Partial.{some_inj}
use gnodi.Base.Text.{Bytes, bytes_equal, bytes_equal_iff}
use gnodi.Base.Result.{Result, ok, err}
use gnodi.Base.Action.{Action, Call, ◌>>=◌, try, have, have-then, try-then}
use gnodi.Base.Int.{ℤ}
use gnodi.Gnodid.Options.{Options, get_chain_id_from_opts}
use gnodi.Gnodid.Options.Exported.{IsChainId, IsExported}

-- Each error is a panic.
pub data NewAppError : Type 0 where
  bad_pruning no_snapshot_store no_chain_id : NewAppError

pub record NodeSdk (k : Options) : Type 1 where
  pub Cache : Type 0
  pub Pruning : Type 0
  pub SnapshotStore : Type 0
  pub new_cache : Cache
  pub pruning_options : k.Opts → Option Pruning
  -- `GetSnapshotStore`, which opens its files
  pub snapshot_store : k.Opts → Call k.State SnapshotStore
  -- The values of the flags, as the `cast` package reads them.
  pub inter_block_cache : k.Opts → Bool
  pub snapshot_interval : k.Opts → ℕ
  pub snapshot_keep_recent : k.Opts → ℕ
  pub min_gas_prices : k.Opts → Bytes
  pub query_gas_limit : k.Opts → ℕ
  pub halt_height : k.Opts → ℕ
  pub halt_time : k.Opts → ℕ
  pub min_retain_blocks : k.Opts → ℕ
  pub trace : k.Opts → Bool
  pub index_events : k.Opts → List Bytes
  pub iavl_cache_size : k.Opts → ℤ
  pub iavl_disable_fast_node : k.Opts → Bool

module _ (k : Options) (n : NodeSdk k) where
  open k use {Opts, State, App}
  open n use {Cache, Pruning, SnapshotStore}

  -- The options of the base application.
  pub data BaseOption : Type 0 where
    set_chain_id : Bytes → BaseOption
    set_pruning : Pruning → BaseOption
    set_min_gas_prices : Bytes → BaseOption
    set_query_gas_limit : ℕ → BaseOption
    set_halt_height : ℕ → BaseOption
    set_halt_time : ℕ → BaseOption
    set_min_retain_blocks : ℕ → BaseOption
    set_inter_block_cache : Option Cache → BaseOption
    set_trace : Bool → BaseOption
    set_index_events : List Bytes → BaseOption
    set_snapshot : SnapshotStore → ℕ × ℕ → BaseOption
    set_iavl_cache_size : ℤ → BaseOption
    set_iavl_disable_fast_node : Bool → BaseOption

  unfoldable pub base_options : Opts → Pruning → SnapshotStore → Bytes → List BaseOption
  base_options opts pruning store chain_id =
      let cache = if n.inter_block_cache opts then some n.new_cache else none in
      let snapshot_options : ℕ × ℕ = (n.snapshot_interval opts, n.snapshot_keep_recent opts) in
      set_chain_id chain_id
      ∷ set_pruning pruning
      ∷ set_min_gas_prices (n.min_gas_prices opts)
      ∷ set_query_gas_limit (n.query_gas_limit opts)
      ∷ set_halt_height (n.halt_height opts)
      ∷ set_halt_time (n.halt_time opts)
      ∷ set_min_retain_blocks (n.min_retain_blocks opts)
      ∷ set_inter_block_cache cache
      ∷ set_trace (n.trace opts)
      ∷ set_index_events (n.index_events opts)
      ∷ set_snapshot store snapshot_options
      ∷ set_iavl_cache_size (n.iavl_cache_size opts)
      ∷ set_iavl_disable_fast_node (n.iavl_disable_fast_node opts)
      ∷ []

  -- `app.New` of the latest version with these options is given.
  module _ (new : Opts → List BaseOption → State → App × State) where
    unfoldable pub new_app : Opts → Action NewAppError State App
    new_app opts = do
      pruning ← have (n.pruning_options opts) bad_pruning
      store ← try (n.snapshot_store opts) no_snapshot_store
      chain_id ← have (get_chain_id_from_opts k opts) no_chain_id
      λ s. let (app, s') = new opts (base_options opts pruning store chain_id) s in (ok app, s')

    -- The chain id is a function of the two texts.
    chain_id_same :
        (given opts : Opts) (a b : Bytes)
        → k.chain_id_text opts ≡ k.chain_id_text given
        → k.home_text opts ≡ k.home_text given
        → get_chain_id_from_opts k given ≡ some a
        → IsChainId k opts b
        → a ≡ b
    unfolding get_chain_id_from_opts
    chain_id_same given opts a b e f h c =
        elim (Bool-cases (bytes_equal (k.chain_id_text given) [])) [
          | inl t ↦ some_inj (
              sym (rw t at h)
              ∙ ap k.chain_id_from_home (sym f)
              ∙ c.config (e ∙ (bytes_equal_iff (k.chain_id_text given) []).0 t))
          | inr t ↦ some_inj (sym (rw t at h)) ∙ sym e ∙ sym (c.flag (λ z. unlike t (sym e ∙ z)))
        ]
      where
        unlike : bytes_equal (k.chain_id_text given) [] ≡ false → k.chain_id_text given ≢ []
        unlike t z = cc ((bytes_equal_iff (k.chain_id_text given) []).1 z)

    -- A node and an export of the same options run under one chain id, when setting the period of
    -- the invariant checks leaves the texts of the chain id and of the home as they are: the
    -- options of the node's application set the chain id of the exported one.
    pub new_app-same_chain :
        (opts : Opts) (s s' : State) (app : App) {height : ℤ} {zero_height : Bool}
        {allowed modules : List Bytes} {t t' : State} {exported : k.Exported}
        → k.chain_id_text (k.set_inv_check_period 1 opts) ≡ k.chain_id_text opts
        → k.home_text (k.set_inv_check_period 1 opts) ≡ k.home_text opts
        → new_app opts s ≡ (ok app, s')
        → (x : IsExported k height zero_height allowed opts modules t exported t')
        → (pruning : Pruning) × (store : SnapshotStore) × (between : State) × (new opts
              (base_options opts pruning store x.chain_id)
              between
            ≡ (app, s'))
    unfolding new_app
    new_app-same_chain opts s s' app e f h x =
        let (pruning, e1, h1) = have-then s (n.pruning_options opts) bad_pruning _ h in
        let (store, e2, h2) = try-then (n.snapshot_store opts s) no_snapshot_store _ h1 in
        let s1 = (n.snapshot_store opts s).1 in
        let (chain_id, e3, h3) = have-then s1 (get_chain_id_from_opts k opts) no_chain_id _ h2 in
        (
          pruning,
          store,
          s1,
          subst (λ c. new opts (base_options opts pruning store c) s1 ≡ (app, s'))
              (chain_id_same opts (k.set_inv_check_period 1 opts) chain_id x.chain_id e f e3
                x.chain)
              (ended (new opts (base_options opts pruning store chain_id) s1) h3),
        )
      where
        ended :
            (r : App × State)
            → ◌≡◌ {A = Result NewAppError App × State} (ok r.0, r.1) (ok app, s')
            → r ≡ (app, s')
        ended r h = ap (λ q. elim q.0 [ ok y ↦ (y, q.1) | err _ ↦ r ]) h

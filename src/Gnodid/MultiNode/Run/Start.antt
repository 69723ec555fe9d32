-- ===== src/Gnodid/MultiNode/Run/Start.antt =====
-- The loop over the nodes from its start in `initTestnetFiles`.
use gnodi.Base.{refl, subst, arith, ◌++◌, ◌≡◌, ℕ}
use gnodi.Base.Text.{bytes}
use gnodi.Base.Result.{ok}
use gnodi.Gnodid.Strings.{join_pieces}
use gnodi.Gnodid.MultiNode.Env.{Env, NodeConfig}
use gnodi.Gnodid.MultiNode.Node.{Args, Vars, init_nodes}
use gnodi.Gnodid.MultiNode.Node.Filled.{IsFilled, init_nodes-IsFilled}
use gnodi.Gnodid.MultiNode.Run.{no_nodes, app_config}

module _ (k : Env) where
  open k use {State, NodeOther, default_bond_denom}

  no_nodes-IsFilled :
      (args : Args k) (config : NodeConfig NodeOther)
      → IsFilled k args (bytes "0.0001" ++ default_bond_denom) 0 (no_nodes k args config)
  unfolding no_nodes app_config join_pieces
  no_nodes-IsFilled args config = record {
    ids = refl;
    keys = refl;
    accounts = refl;
    balances = refl;
    files = refl;
    peers = refl;
    gentxs = refl;
    priced = refl;
  }

  -- If the loop over `n` nodes ends well, each of its lists has `n` entries, the peers are the
  -- addresses of the nodes in their order with commas between them, the transactions' files are
  -- those of the nodes, and the minimum gas price is the fixed one, whatever the flag gave.
  pub nodes-IsFilled :
      (args : Args k) (config : NodeConfig NodeOther) (n : ℕ) (vars : Vars k) (s s' : State)
      → init_nodes k args n 0 (no_nodes k args config) s ≡ (ok vars, s')
      → IsFilled k args (bytes "0.0001" ++ default_bond_denom) n vars
  nodes-IsFilled args config n vars s s' h =
      subst (λ m. IsFilled k args (bytes "0.0001" ++ default_bond_denom) m vars) (omega arith)
        (init_nodes-IsFilled k args _ n 0 (no_nodes k args config) vars s s'
          (no_nodes-IsFilled args config) h)

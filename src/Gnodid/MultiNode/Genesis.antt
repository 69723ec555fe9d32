-- ===== src/Gnodid/MultiNode/Genesis.antt =====
-- The genesis files of the nodes: `initGenFiles` and `collectGenFiles`.
pub mod Supply
pub mod Collected
use gnodi.Base.{ℕ, zero, suc, Bool, true, List, [], ◌∷◌, ◌++◌, Option, some, none, ⊤, get_elem?}
use gnodi.Base.Text.{Bytes, bytes}
use gnodi.Base.Result.{ok, err}
use gnodi.Base.Action.{Action, ◌>>=◌, ◌>>◌, pure, stop, gets, try, have}
use gnodi.Base.Int.{ℤ, pos}
use gnodi.Gnodid.Strings.{itoa}
use gnodi.Gnodid.MultiNode.Env.{
  Env, NodeConfig, Balance, BankGenesis, GenesisDoc, InitError, failed, panicked,
}
use gnodi.Gnodid.MultiNode.Ports.{p2p_port, proxy_port, prometheus_port}
use gnodi.Gnodid.MultiNode.Node.{Step, Args, node_dir_name, node_dir, port_of}

module _ (k : Env) where
  open k use {State, Coin, NodeOther, BankOther, AuthGenesis, GenState, Account, PubKey, join, add}

  unfoldable pub add_balances : List (Balance Coin) → List Coin → List Coin
  add_balances [] supply = supply
  add_balances (balance ∷ l) supply = add_balances l (add supply balance.coins)

  -- The balances are cleaned, and each is added to the supply.
  unfoldable pub fund_bank :
      List (Balance Coin) → BankGenesis Coin BankOther → BankGenesis Coin BankOther
  fund_bank gen_balances bank =
      let balances = k.sanitize_genesis_balances gen_balances in
      record bank { balances = balances; supply = add_balances balances bank.supply }

  unfoldable pub init_genesis_state : List Account → List (Balance Coin) → Step k GenState
  init_genesis_state gen_accounts gen_balances = do
    let state = k.default_genesis
    auth ← have (k.auth_genesis state) panicked
    packed ← have (k.pack_accounts gen_accounts auth) failed
    let with_accounts = k.put_auth_genesis packed state
    bank ← have (k.bank_genesis with_accounts) panicked
    pure (k.put_bank_genesis (fund_bank gen_balances bank) with_accounts)

  -- The files of the indices from `i` on, for `n` more; an index past the list panics.
  unfoldable pub save_genesis : GenesisDoc → List Bytes → ℕ → ℕ → Step k ⊤
  save_genesis doc gen_files zero i = pure tt
  save_genesis doc gen_files (suc n) i = do
    file ← have (get_elem? gen_files i) panicked
    try (k.save_as doc file) failed
    save_genesis doc gen_files n (suc i)

  unfoldable pub init_gen_files :
      Bytes → List Account → List (Balance Coin) → List Bytes → ℕ → Step k ⊤
  init_gen_files chain_id gen_accounts gen_balances gen_files n = do
    state ← init_genesis_state gen_accounts gen_balances
    json ← have (k.marshal_genesis state) failed
    save_genesis (record { chain_id = chain_id; app_state = json }) gen_files n 0

  -- The configuration of node `i`, before its genesis file is read, and with its addresses.
  unfoldable pub enter : Args k → ℕ → NodeConfig NodeOther → NodeConfig NodeOther
  enter args i config = record config {
    moniker = node_dir_name k args i;
    root_dir = node_dir k args i;
    other = k.set_root (node_dir k args i) config.other;
  }

  unfoldable pub listen : Args k → Bytes → ℕ → NodeConfig NodeOther → NodeConfig NodeOther
  listen args peers i config = record config {
    persistent_peers = peers;
    allow_duplicate_ip = true;
    p2p_listen_address = bytes "tcp://0.0.0.0:" ++ itoa (p2p_port i);
    rpc_listen_address = bytes "tcp://127.0.0.1:" ++ port_of k args i;
    proxy_app = bytes "tcp://127.0.0.1:" ++ itoa (proxy_port i);
    prometheus_listen_addr = b':' ∷ itoa (prometheus_port i);
    prometheus = true;
  }

  -- The state of the application that was found first stays.
  abbrev pub or_first : Option Bytes → Bytes → Bytes
  or_first (some state) found = state
  or_first none found = found

  unfoldable pub gentxs_dir_of : Args k → ℕ → Bytes
  gentxs_dir_of args i = join (node_dir k args i ∷ bytes "config" ∷ bytes "gentx" ∷ [])

  -- The rest of a round, with the identity of the node.
  unfoldable pub collect_node :
      Args k
      → Bytes
      → ℕ
      → Bytes
      → ℕ
      → PubKey
      → NodeConfig NodeOther
      → Option Bytes
      → Step k (NodeConfig NodeOther × Bytes)
  collect_node args peers time node_id i key config app_state = do
    genesis ← try (k.app_genesis_from_file (k.genesis_file config)) failed
    found ←
        try (k.gen_app_state config args.chain_id (gentxs_dir_of args i) node_id key genesis) failed
    let next = listen args peers i config
    try
        (k.write_node_config (join (next.root_dir ∷ bytes "config" ∷ bytes "config.toml" ∷ []))
          next)
        panicked
    let state = or_first app_state found
    try (k.export_genesis_file_with_time (k.genesis_file next) args.chain_id state time) failed
    pure (next, state)

  unfoldable pub collect_nodes :
      Args k
      → Bytes
      → ℕ
      → List Bytes
      → List PubKey
      → ℕ
      → ℕ
      → NodeConfig NodeOther
      → Option Bytes
      → Step k ⊤
  collect_nodes args peers time node_ids keys zero i config app_state = pure tt
  collect_nodes args peers time node_ids keys (suc n) i config app_state = do
    node_id ← have (get_elem? node_ids i) panicked
    key ← have (get_elem? keys i) panicked
    (next, state) ← collect_node args peers time node_id i key (enter args i config) app_state
    collect_nodes args peers time node_ids keys n (suc i) next (some state)

  -- One time for all genesis files.
  unfoldable pub collect_gen_files :
      Args k → Bytes → List Bytes → List PubKey → ℕ → NodeConfig NodeOther → Step k ⊤
  collect_gen_files args peers node_ids keys n config = do
    time ← gets k.now
    collect_nodes args peers time node_ids keys n 0 config none

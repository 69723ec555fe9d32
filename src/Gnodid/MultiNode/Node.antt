-- ===== src/Gnodid/MultiNode/Node.antt =====
-- The loop of `initTestnetFiles` that writes the files of each node.

pub mod Filled
pub mod Names
use gnodi.Base.{
  ℕ, zero, suc, ◌*◌, Bool, true, false, List, [], ◌∷◌, ◌++◌, Option, some, none, ⊤, if◌then◌else◌,
}
use gnodi.Base.Text.{Bytes, bytes, bytes_equal}
use gnodi.Base.Result.{ok, err}
use gnodi.Base.Action.{Action, Call, ◌>>=◌, ◌>>◌, pure, try, have}
use gnodi.Base.Int.{ℤ, pos}
use gnodi.Gnodid.Strings.{itoa}
use gnodi.Gnodid.MultiNode.Env.{
  Env, InitArgs, NodeConfig, AppConfig, Balance, InitError, failed, panicked,
}
use gnodi.Gnodid.MultiNode.Ports.{p2p_port, grpc_port, api_port}
use gnodi.Gnodid.MultiNode.Files.{write_file}

module _ (k : Env) where
  open k use {
    State, Coin, NodeOther, AppOther, Account, PubKey, Addr, Keyring, Builder, join,
    default_bond_denom,
  }
  open k use {new_coin, tokens_from_consensus_power, sort, address_text, val_address_text}

  abbrev pub Step : Type 0 → Type 0
  Step A = Action InitError State A

  abbrev pub Args : Type 0
  Args = InitArgs Coin

  -- The variables that the loop changes; the two arrays hold what was written so far.
  pub record Vars : Type 0 where
    pub node_config : NodeConfig NodeOther
    pub app_config : AppConfig AppOther
    pub node_ids : List Bytes
    pub val_pub_keys : List PubKey
    pub gen_accounts : List Account
    pub gen_balances : List (Balance Coin)
    pub gen_files : List Bytes
    pub persistent_peers : Bytes
    pub gentxs_files : List Bytes

  unfoldable pub node_dir_name : Args → ℕ → Bytes
  node_dir_name args i = args.node_dir_prefix ++ itoa (pos i)

  unfoldable pub node_dir : Args → ℕ → Bytes
  node_dir args i = join (args.output_dir ∷ node_dir_name args i ∷ [])

  unfoldable pub gentxs_dir : Args → ℕ → Bytes
  gentxs_dir args i =
      join (args.output_dir ∷ node_dir_name args i ∷ bytes "config" ∷ bytes "gentx" ∷ [])

  -- A missing port is the empty text.
  unfoldable pub port_of : Args → ℕ → Bytes
  port_of args i = elim (args.ports i) [ some port ↦ port | none ↦ [] ]

  -- The configuration is one object, which every round changes again.
  unfoldable pub configure : Args → ℕ → NodeConfig NodeOther → NodeConfig NodeOther
  configure args i config = record config {
    root_dir = node_dir args i;
    other = k.set_root (node_dir args i) config.other;
    moniker = node_dir_name args i;
    rpc_listen_address = bytes "tcp://0.0.0.0:" ++ port_of args i;
  }

  -- On an error the output directory is removed.
  unfoldable pub or_remove : {A : Type 0} → Bytes → Call State A → Step A
  or_remove dir f s =
      let (o, s') = f s in elim o [ some a ↦ (ok a, s') | none ↦ (err failed, k.remove_all dir s') ]

  unfoldable pub memo_of : Args → ℕ → Bytes → Bytes
  memo_of args i node_id = node_id ++ b'@' ∷ (args.starting_ip_address ++ b':' ∷ itoa (p2p_port i))

  unfoldable pub add_peer : Bytes → Bytes → Bytes
  add_peer peers memo = if bytes_equal peers [] then memo else peers ++ b',' ∷ memo

  -- The key of the node, whose seed words are saved.
  unfoldable pub create_key : Args → ℕ → Step (Keyring × Addr)
  create_key args i = do
    kb ← try (k.new_keyring args.keyring_backend (node_dir args i)) failed
    algo ← have (k.new_signing_algo kb args.algo) failed
    (addr, secret) ←
        or_remove args.output_dir (k.generate_save_coin_key kb (node_dir_name args i) algo)
    cli_print ← have (k.marshal_secret secret) failed
    write_file k (join (node_dir args i ∷ bytes "key_seed.json" ∷ [])) (node_dir args i) cli_print
    pure (kb, addr)

  unfoldable pub gen_balance : Addr → Step (Balance Coin)
  gen_balance addr = do
    acc_tokens ← have (new_coin (bytes "testtoken") (tokens_from_consensus_power 1000)) panicked
    staking_tokens ← have (new_coin default_bond_denom (tokens_from_consensus_power 500)) panicked
    pure (record { address = address_text addr; coins = sort (acc_tokens ∷ staking_tokens ∷ []) })

  unfoldable pub val_tokens : Args → ℕ → Option Coin
  val_tokens args i = elim (args.validators_stakes_amount i) [
    | some coin ↦ some coin
    | none ↦ new_coin default_bond_denom (tokens_from_consensus_power 100)
  ]

  unfoldable pub gentx_file : Args → ℕ → Bytes → Bytes
  gentx_file args i node_id =
      join (gentxs_dir args i ∷ (bytes "gentx-" ++ (node_id ++ bytes ".json")) ∷ [])

  -- The signed message that creates the node's validator.
  unfoldable pub create_gentx : Args → ℕ → Bytes → PubKey → Keyring → Addr → Step ⊤
  create_gentx args i node_id key kb addr = do
    let memo = memo_of args i node_id
    tokens ← have (val_tokens args i) panicked
    msg ←
        have (k.new_msg_create_validator (val_address_text addr) key tokens (node_dir_name args i))
          failed
    builder ← have (k.set_msgs msg) failed
    signed ←
        try (k.sign args.chain_id memo kb (node_dir_name args i) (k.set_memo memo builder)) failed
    tx ← have (k.encode_tx signed) failed
    write_file k (gentx_file args i node_id) (gentxs_dir args i) tx

  unfoldable pub serve : Args → ℕ → AppConfig AppOther → AppConfig AppOther
  serve args i config = record config {
    grpc_address = args.starting_ip_address ++ b':' ∷ itoa (grpc_port i);
    api_address = bytes "tcp://localhost:" ++ itoa (api_port i);
  }

  -- What a round makes and writes.
  pub record Made : Type 0 where
    pub node_id : Bytes
    pub key : PubKey
    pub addr : Addr
    pub balance : Balance Coin

  unfoldable pub write_node : Args → ℕ → NodeConfig NodeOther → AppConfig AppOther → Step Made
  write_node args i config app = do
    or_remove args.output_dir (k.mkdir_all (join (node_dir args i ∷ bytes "config" ∷ [])))
    (node_id, key) ← or_remove args.output_dir (k.initialize_node_validator_files config)
    (kb, addr) ← create_key args i
    balance ← gen_balance addr
    create_gentx args i node_id key kb addr
    try (k.write_app_config (join (node_dir args i ∷ bytes "config" ∷ bytes "app.toml" ∷ [])) app)
        panicked
    pure (record { node_id = node_id; key = key; addr = addr; balance = balance })

  unfoldable pub append_node : Args → ℕ → Vars → Made → Vars
  append_node args i vars made = record {
    node_config = configure args i vars.node_config;
    app_config = serve args i vars.app_config;
    node_ids = vars.node_ids ++ made.node_id ∷ [];
    val_pub_keys = vars.val_pub_keys ++ made.key ∷ [];
    gen_accounts = vars.gen_accounts ++ k.new_base_account made.addr ∷ [];
    gen_balances = vars.gen_balances ++ made.balance ∷ [];
    gen_files = vars.gen_files ++ k.genesis_file (configure args i vars.node_config) ∷ [];
    persistent_peers = add_peer vars.persistent_peers (memo_of args i made.node_id);
    gentxs_files = vars.gentxs_files ++ gentx_file args i made.node_id ∷ [];
  }

  -- One round of the loop.
  unfoldable pub init_node : Args → ℕ → Vars → Step Vars
  init_node args i vars = do
    made ← write_node args i (configure args i vars.node_config) (serve args i vars.app_config)
    pure (append_node args i vars made)

  unfoldable pub init_nodes : Args → ℕ → ℕ → Vars → Step Vars
  init_nodes args zero i vars = pure vars
  init_nodes args (suc n) i vars = do next ← init_node args i vars; init_nodes args n (suc i) next

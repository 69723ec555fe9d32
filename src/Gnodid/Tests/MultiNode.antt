-- ===== src/Gnodid/Tests/MultiNode.antt =====
-- The multi-node command on a disk of names and contents.
use gnodi.Base.{
  refl, arith, ℕ, ◌+◌, ◌≡◌, Bool, true, false, List, [], ◌∷◌, ◌++◌, length, ⊤, Option, some, none,
  if◌then◌else◌, ◌==◌,
}
use gnodi.Base.Text.{Bytes, bytes, bytes_equal}
use gnodi.Base.Result.{Result, ok, err}
use gnodi.Base.Int.{ℤ, pos, negsuc}
use gnodi.Gnodid.Strings.{has_prefix}
use gnodi.Gnodid.MultiNode.Env.{
  Env, InitArgs, NodeConfig, AppConfig, Balance, BankGenesis, InitError,
}
use gnodi.Gnodid.MultiNode.Args.{parse_stakes, bond_coin, assign, no_entries}
use gnodi.Gnodid.MultiNode.Args.Stakes.{parse_stakes_lem}
use gnodi.Gnodid.MultiNode.Files.{write_file}
use gnodi.Gnodid.MultiNode.Node.{
  Vars, init_nodes, init_node, write_node, create_key, gen_balance, create_gentx, or_remove,
  val_tokens,
}
use gnodi.Gnodid.MultiNode.Node.Filled.{IsFilled}
use gnodi.Gnodid.MultiNode.Genesis.{init_genesis_state, fund_bank, add_balances}
use gnodi.Gnodid.MultiNode.Genesis.Supply.{IsBankGenesis, IsFunded, init_genesis_state-IsFunded}
use gnodi.Gnodid.MultiNode.Run.{no_nodes}
use gnodi.Gnodid.MultiNode.Run.Start.{nodes-IsFilled}

-- What every file holds.
abbrev pub Disk : Type 0
Disk = Bytes → Option Bytes

abbrev pub put : Bytes → Bytes → Disk → Disk
put file content s path = if bytes_equal path file then some content else s path

abbrev slashed : List Bytes → Bytes
slashed [] = []
slashed (piece ∷ []) = piece
slashed (piece ∷ next ∷ pieces) = piece ++ b'/' ∷ slashed (next ∷ pieces)

abbrev has_slash : Bytes → Bool
has_slash [] = false
has_slash (c ∷ s) = let rest = has_slash s in if c == b'/' then true else rest

abbrev last_piece : Bytes → Bytes
last_piece [] = []
last_piece (c ∷ s) =
    let rest = last_piece s in if has_slash s then rest else if c == b'/' then s else c ∷ s

-- What follows the directory, or the way out of it.
abbrev dropped : Bytes → Bytes → Bytes
dropped [] (c ∷ s) = s
dropped [] [] = []
dropped (d ∷ dir) [] = []
dropped (d ∷ dir) (c ∷ s) = dropped dir s

abbrev pub relative : Bytes → Bytes → Bytes
relative dir file = if has_prefix file (dir ++ b'/' ∷ []) then dropped dir file else bytes ".."

abbrev pub starts_at_root : Bytes → Bool
starts_at_root [] = false
starts_at_root (c ∷ s) = c == b'/'

abbrev sum : List ℕ → ℕ
sum [] = 0
sum (n ∷ l) = n + sum l

abbrev as_int : Bytes → Option ℤ
as_int [] = none
as_int (c ∷ s) = some (pos c)

abbrev as_coin : ℤ → Option ℕ
as_coin (pos n) = some n
as_coin (negsuc n) = none

abbrev pub config : NodeConfig ⊤
config = record {
  root_dir = [];
  moniker = [];
  rpc_listen_address = [];
  persistent_peers = [];
  allow_duplicate_ip = false;
  p2p_listen_address = [];
  proxy_app = [];
  prometheus_listen_addr = [];
  prometheus = false;
  other = tt;
}

abbrev app : AppConfig ⊤
app = record {
  min_gas_prices = [];
  api_enable = true;
  enable_hostname_label = true;
  telemetry_enabled = true;
  prometheus_retention_time = 9;
  grpc_address = [];
  api_address = [];
  other = tt;
}

abbrev bank : BankGenesis ℕ ⊤
bank = record { balances = []; supply = 5 ∷ []; other = tt }

abbrev pub toy : Env
toy = record {
  State = Disk;
  Coin = ℕ;
  NodeOther = ⊤;
  AppOther = ⊤;
  BankOther = ⊤;
  AuthGenesis = List Bytes;
  GenState = List Bytes × BankGenesis ℕ ⊤;
  Account = Bytes;
  PubKey = Bytes;
  Addr = Bytes;
  Keyring = Bytes;
  Algo = Bytes;
  Msg = Bytes;
  Builder = Bytes;
  new_int_from_string = as_int;
  default_bond_denom = bytes "stake";
  address_text = λ a. a;
  val_address_text = λ a. a;
  new_coin = λ d a. as_coin a;
  tokens_from_consensus_power = λ n. pos n;
  sort = λ l. l;
  add = λ a b. (sum a + sum b) ∷ [];
  join = slashed;
  base = last_piece;
  abs = λ p s. some p;
  rel = λ d p. some (relative d p);
  is_abs = starts_at_root;
  intn = λ s bound i. i;
  set_root = λ d o. o;
  genesis_file = λ c. c.root_dir ++ bytes "/genesis.json";
  default_app_config = app;
  write_app_config = λ p c s. (some tt, s);
  write_node_config = λ p c s. (some tt, s);
  mkdir_all = λ p s. (some tt, s);
  remove_all = λ p s. s;
  write_bytes = λ p c s. (some tt, put p c s);
  open_file = λ p s. (elim (s p) [ some c ↦ some tt | none ↦ none ], s);
  create = λ p s. (some tt, put p [] s);
  copy = λ p src s. elim (s src) [ some c ↦ (some (length c), put p c s) | none ↦ (none, s) ];
  sync = λ p s. (some tt, s);
  initialize_node_validator_files = λ c s. (some (bytes "id-" ++ c.moniker, c.moniker), s);
  new_keyring = λ b d s. (some d, s);
  new_signing_algo = λ k a. some a;
  generate_save_coin_key = λ k n a s. (some (n, bytes "secret"), s);
  marshal_secret = λ b. some b;
  new_msg_create_validator = λ a p c n. some a;
  set_msgs = λ m. some m;
  set_memo = λ m b. b;
  sign = λ c m k n b s. (some b, s);
  encode_tx = λ b. some b;
  default_genesis = ([], bank);
  auth_genesis = λ g. some g.0;
  bank_genesis = λ g. some g.1;
  put_auth_genesis = λ a g. (a, g.1);
  put_bank_genesis = λ b g. (g.0, b);
  new_base_account = λ a. a;
  pack_accounts = λ l a. some l;
  sanitize_genesis_balances = λ l. l;
  marshal_genesis = λ g. some [];
  save_as = λ d p s. (some tt, put p d.app_state s);
  app_genesis_from_file = λ p s. (s p, s);
  gen_app_state = λ c i d n p g s. (some g, s);
  now = λ s. 0;
  export_genesis_file_with_time = λ f c a t s. (some tt, put f a s);
}

-- Two nodes.
abbrev pub args : InitArgs ℕ
args = record {
  algo = bytes "secp256k1";
  chain_id = bytes "chain";
  keyring_backend = bytes "test";
  min_gas_prices = bytes "7stake";
  node_dir_prefix = bytes "v";
  num_validators = pos 2;
  output_dir = bytes "out";
  starting_ip_address = bytes "localhost";
  validators_stakes_amount = no_entries;
  ports = no_entries;
}

abbrev empty_disk : Disk
empty_disk path = none

abbrev first_vars : Vars toy
first_vars = no_nodes toy args config

abbrev filled : Result InitError (Vars toy) × Disk
filled = init_nodes toy args 2 0 first_vars empty_disk

abbrev vars : Vars toy
vars = elim filled.0 [ ok v ↦ v | err e ↦ first_vars ]

fills : init_nodes toy args 2 0 first_vars empty_disk ≡ (ok vars, filled.1)
unfolding init_nodes init_node write_node create_key gen_balance create_gentx or_remove val_tokens
    write_file
fills = refl

nodes-IsFilled_example : IsFilled toy args (bytes "0.0001" ++ bytes "stake") 2 vars
nodes-IsFilled_example = nodes-IsFilled toy args config 2 vars empty_disk filled.1 fills

-- The first piece that is not a number moves the others up.
abbrev pieces : List Bytes
pieces = bytes "3" ∷ [] ∷ bytes "4" ∷ []

abbrev stakes : ℕ → Option ℕ
stakes = assign 1 52 (assign 0 51 no_entries)

parses : parse_stakes toy pieces 0 no_entries ≡ ok stakes
unfolding parse_stakes bond_coin
parses = refl

parse_stakes_lem_example : stakes 1 ≡ some 52
parse_stakes_lem_example = parse_stakes_lem toy pieces stakes parses 1

toy-IsBankGenesis : IsBankGenesis toy sum
toy-IsBankGenesis = record {
  amount-add = λ a b. omega arith;
  bank-put = λ b s. refl;
  bank-put_auth = λ a s. refl;
}

abbrev balances : List (Balance ℕ)
balances =
    record { address = bytes "a"; coins = 3 ∷ 4 ∷ [] }
    ∷ record { address = bytes "b"; coins = 6 ∷ [] }
    ∷ []

abbrev made : List Bytes × BankGenesis ℕ ⊤
made = (bytes "a" ∷ [], record { balances = balances; supply = 18 ∷ []; other = tt })

makes : init_genesis_state toy (bytes "a" ∷ []) balances empty_disk ≡ (ok made, empty_disk)
unfolding init_genesis_state fund_bank add_balances
makes = refl

init_genesis_state-IsFunded_example :
    (before after : BankGenesis ℕ ⊤) × (◌≡◌ {A = Option (BankGenesis ℕ ⊤)}
      (some bank)
      (some before))
    × (◌≡◌ {A = Option (BankGenesis ℕ ⊤)} (some made.1) (some after))
    × IsFunded toy sum toy-IsBankGenesis balances before after
init_genesis_state-IsFunded_example =
    init_genesis_state-IsFunded toy sum toy-IsBankGenesis (bytes "a" ∷ []) balances empty_disk
      empty_disk made makes

-- ===== src/Gnodid/Tests/Init.antt =====
-- A node that is initialized twice.
use gnodi.Base.{refl, ◌≡◌, true, false, [], ⊤, Option, some, none}
use gnodi.Base.Text.{bytes}
use gnodi.Base.Result.{err}
use gnodi.Base.Int.{pos, negsuc}
use gnodi.Gnodid.Init.{
  Node, Flags, AppGenesis, there, not_there, already_exists, mnemonic_of, check_absent,
  read_genesis, put_genesis, make_genesis, write_genesis, finish_init, init_node_files, run_init,
}

abbrev Disk : Type 0
Disk = Option (AppGenesis ⊤)

abbrev empty : AppGenesis ⊤
empty = record {
  app_name = [];
  app_version = [];
  chain_id = [];
  app_state = [];
  initial_height = pos 0;
  pub_key_types = [];
  other = tt;
}

abbrev toy : Node
toy = record {
  State = Disk;
  Other = ⊤;
  client_chain_id = [];
  version_name = bytes "gnodi";
  version_number = bytes "1";
  genesis_file = bytes "genesis.json";
  random_string = λ n s. bytes "abcdef";
  read_mnemonic = λ s. (some (bytes "words"), s);
  is_mnemonic_valid = λ b. true;
  initialize_node_files = λ b s. (some (bytes "id"), s);
  stat = λ f s. elim s [ some g ↦ there | none ↦ not_there ];
  default_genesis_json = λ s. some (bytes "state");
  empty_genesis = empty;
  app_genesis_from_file = λ f s. (s, s);
  default_params = λ o. o;
  export_genesis_file = λ g f s. (some tt, some g);
  marshal_summary = λ c n a. some a;
  write_config_file = λ m s. s;
  print = λ b s. (some tt, s);
}

abbrev flags : Flags
flags = record {
  chain_id = [];
  recover = true;
  init_height = negsuc 3;
  overwrite = false;
  consensus_key_algo = some (bytes "ed25519");
}

abbrev nowhere : Disk
nowhere = none

abbrev disk : Disk
disk = (run_init toy flags (bytes "node") nowhere).1

-- The second time is refused.
refused : run_init toy flags (bytes "node") disk ≡ (err already_exists, disk)
unfolding run_init init_node_files write_genesis make_genesis put_genesis finish_init mnemonic_of
    check_absent read_genesis
refused = refl

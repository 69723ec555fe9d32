-- ===== src/Gnodid/MultiNode/Genesis/Collected.antt =====
-- The genesis files that `collectGenFiles` leaves: one text for all nodes.
use gnodi.Base.{ℕ, ◌≡◌, ◌≢◌, List, [], ◌∷◌, Option, some, get_elem?}
use gnodi.Base.Text.{Bytes, bytes}
use gnodi.Base.Result.{Result}
use gnodi.Gnodid.MultiNode.Env.{Env, NodeConfig}
use gnodi.Gnodid.MultiNode.Node.{Args, node_dir}
use gnodi.Gnodid.MultiNode.Genesis.{enter, or_first, gentxs_dir_of}

module _ (k : Env) where
  open k use {State, NodeOther, PubKey, join, genesis_file, gen_app_state}

  -- The text of a genesis file for a chain, a state and a time; the name that a configuration has for
  -- the file; and the path of a name under a root.
  pub record GenesisFiles : Type 0 where
    pub document : (chain_id state : Bytes) → ℕ → Bytes
    pub name : NodeOther → Bytes
    pub rooted : Bytes → Bytes → Bytes

  -- What the calls document: the genesis file is under the root, and setting the root keeps its name;
  -- the export writes the text; making the state writes at most the genesis file of the
  -- configuration; and the other calls change at most the file that they name.
  pub record IsGenesisDisk (content : Bytes → State → Option Bytes) (files : GenesisFiles)
      : Type 0 where
    pub file :
        (c : NodeConfig NodeOther) → genesis_file c ≡ files.rooted c.root_dir (files.name c.other)
    pub kept_name : (d : Bytes) (o : NodeOther) → files.name (k.set_root d o) ≡ files.name o
    pub read :
        (f p : Bytes) (s s' : State) {a : Bytes}
        → k.app_genesis_from_file f s ≡ (some a, s')
        → content p s' ≡ content p s
    pub generated :
        (c : NodeConfig NodeOther) (i d n : Bytes) (key : PubKey) (g p : Bytes) (s s' : State)
        {a : Bytes}
        → gen_app_state c i d n key g s ≡ (some a, s')
        → p ≢ genesis_file c
        → content p s' ≡ content p s
    pub configured :
        (f p : Bytes) (c : NodeConfig NodeOther) (s s' : State)
        → k.write_node_config f c s ≡ (some tt, s')
        → p ≢ f
        → content p s' ≡ content p s
    pub exported :
        (f c a : Bytes) (t : ℕ) (s s' : State)
        → k.export_genesis_file_with_time f c a t s ≡ (some tt, s')
        → (content f s' ≡ some (files.document c a t))
          × ((p : Bytes) → p ≢ f → content p s' ≡ content p s)

  module _ (content : Bytes → State → Option Bytes) (files : GenesisFiles)
      (disk : IsGenesisDisk content files) (args : Args k) (peers : Bytes) (node_ids : List Bytes)
      (keys : List PubKey) where
    -- The genesis file and the configuration file of node `i`.
    abbrev pub file_of : NodeOther → ℕ → Bytes
    file_of o i = files.rooted (node_dir k args i) (files.name o)

    abbrev pub config_of : ℕ → Bytes
    config_of i = join (node_dir k args i ∷ bytes "config" ∷ bytes "config.toml" ∷ [])

    -- The state of the application that node 0 gets, in the state `s` of the disk.
    pub record IsFirst (config : NodeConfig NodeOther) (s : State) (state : Bytes) : Type 0 where
      pub node_id : Bytes
      pub key : PubKey
      pub genesis : Bytes
      pub loaded : State
      pub made : State
      pub has_id : get_elem? node_ids 0 ≡ some node_id
      pub has_key : get_elem? keys 0 ≡ some key
      pub reads :
          k.app_genesis_from_file (genesis_file (enter k args 0 config)) s ≡ (some genesis, loaded)
      pub makes :
          gen_app_state
            (enter k args 0 config)
            args.chain_id
            (gentxs_dir_of k args 0)
            node_id
            key
            genesis
            loaded
          ≡ (some state, made)

    -- A round for node `i`: its genesis file has the text for the state, and others are as before.
    record IsRound (time i : ℕ) (config next : NodeConfig NodeOther) (state : Bytes) (s s' : State)
        : Type 0 where
      name_kept : files.name next.other ≡ files.name config.other
      written : content (file_of config.other i) s' ≡ some (files.document args.chain_id state time)
      others :
          (p : Bytes) → p ≢ file_of config.other i → p ≢ config_of i → content p s' ≡ content p s

    -- What a round that ended well has read and made, and what it leaves.
    record Collected (time i : ℕ) (node_id : Bytes) (key : PubKey)
        (config next : NodeConfig NodeOther) (given : Option Bytes) (state : Bytes) (s s' : State)
        : Type 0 where
      genesis : Bytes
      found : Bytes
      loaded : State
      made : State
      reads :
          k.app_genesis_from_file (genesis_file (enter k args i config)) s ≡ (some genesis, loaded)
      makes :
          gen_app_state
            (enter k args i config)
            args.chain_id
            (gentxs_dir_of k args i)
            node_id
            key
            genesis
            loaded
          ≡ (some found, made)
      chosen : state ≡ or_first k given found
      round : IsRound time i config next state s s'

    -- The text that belongs in every genesis file.
    abbrev pub text : Bytes → ℕ → Bytes
    text state time = files.document args.chain_id state time

-- ===== src/Gnodid/MultiNode/Args.antt =====
-- The flags of the multi-node command: the stakes and the ports of the nodes.
pub mod Stakes
use gnodi.Base.{
  ℕ, zero, suc, ◌+◌, ◌*◌, Bool, true, false, List, [], ◌∷◌, Option, some, none, ◌==◌, if◌then◌else◌,
}
use gnodi.Base.Text.{Bytes, bytes_equal}
use gnodi.Base.Result.{Result, ok, err, ◌>>=◌}
use gnodi.Base.Int.{ℤ, pos, negsuc}
use gnodi.Gnodid.Strings.{split, itoa}
use gnodi.Gnodid.MultiNode.Env.{Env, InitArgs, InitError, panicked}
use gnodi.Gnodid.MultiNode.Ports.{rpc_port}

-- The values of the flags; nothing where reading one gives an error.
pub record Flags : Type 0 where
  pub output_dir : Bytes
  pub keyring_backend : Bytes
  pub chain_id : Bytes
  pub min_gas_prices : Bytes
  pub node_dir_prefix : Bytes
  pub starting_ip_address : Bytes
  pub num_validators : ℤ
  pub key_type : Bytes
  pub stakes : Option Bytes
  pub list_ports : Option Bytes

-- `m[key] = value`
abbrev pub assign : {A : Type 0} → ℕ → A → (ℕ → Option A) → ℕ → Option A
assign key value m i = if i == key then some value else m i

abbrev pub no_entries : {A : Type 0} → ℕ → Option A
no_entries i = none

-- How often a loop up to `n` runs.
abbrev pub rounds : ℤ → ℕ
rounds (pos n) = n
rounds (negsuc n) = 0

-- The default ports from index `i` on, for `n` more nodes.
unfoldable pub default_ports : ℕ → ℕ → (ℕ → Option Bytes) → ℕ → Option Bytes
default_ports zero i ports = ports
default_ports (suc n) i ports = default_ports n (suc i) (assign i (itoa (rpc_port i)) ports)

unfoldable pub listed_ports : List Bytes → ℕ → (ℕ → Option Bytes) → ℕ → Option Bytes
listed_ports [] top ports = ports
listed_ports (port ∷ l) top ports = listed_ports l (suc top) (assign top port ports)

unfoldable pub parse_ports : ℤ → Option Bytes → ℕ → Option Bytes
parse_ports n none = no_entries
parse_ports n (some s) =
    if bytes_equal s []
    then default_ports (rounds n) 0 no_entries
    else listed_ports (split s) 0 no_entries

module _ (k : Env) where
  open k use {Coin, new_int_from_string, new_coin, default_bond_denom}

  -- `sdk.NewCoin` in the bond's denomination.
  unfoldable pub bond_coin : ℤ → Result InitError Coin
  bond_coin a = elim (new_coin default_bond_denom a) [ some coin ↦ ok coin | none ↦ err panicked ]

  -- An amount that is not a number is passed over, and `top` does not move.
  unfoldable pub parse_stakes :
      List Bytes → ℕ → (ℕ → Option Coin) → Result InitError (ℕ → Option Coin)
  parse_stakes [] top stakes = ok stakes
  parse_stakes (amount ∷ l) top stakes = elim (new_int_from_string amount) [
    | none ↦ parse_stakes l top stakes
    | some a ↦ elim (bond_coin a) [
      | err e ↦ err e
      | ok coin ↦ parse_stakes l (suc top) (assign top coin stakes)
    ]
  ]

  abbrev read_stakes : Option Bytes → Result InitError (ℕ → Option Coin)
  read_stakes none = ok no_entries
  read_stakes (some s) = parse_stakes (split s) 0 no_entries

  unfoldable pub new_args : Flags → Result InitError (InitArgs Coin)
  new_args flags = do
    stakes ← read_stakes flags.stakes
    ok (record {
      algo = flags.key_type;
      chain_id = flags.chain_id;
      keyring_backend = flags.keyring_backend;
      min_gas_prices = flags.min_gas_prices;
      node_dir_prefix = flags.node_dir_prefix;
      num_validators = flags.num_validators;
      output_dir = flags.output_dir;
      starting_ip_address = flags.starting_ip_address;
      validators_stakes_amount = stakes;
      ports = parse_ports flags.num_validators flags.list_ports;
    })

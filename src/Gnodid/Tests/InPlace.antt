-- ===== src/Gnodid/Tests/InPlace.antt =====
-- The in-place testnet on a small chain.
use gnodi.Base.{refl, ℕ, ◌+◌, ◌≡◌, ◌≢◌, false, List, [], ◌∷◌, Option, some, none}
use gnodi.Base.Text.{Bytes, bytes, bytes_equal}
use gnodi.Base.Result.{ok}
use gnodi.Base.Action.{each}
use gnodi.Gnodid.Strings.{split}
use gnodi.Gnodid.InPlace.Args.{
  ValArgs, Value, hex_bytes, pub_key, text, nothing, Key, new_val_addr, user_pub_key, new_op_addr,
  trigger_upgrade, accounts_to_fund, home, get_command_args,
}
use gnodi.Gnodid.InPlace.{
  Keepers, Range, by_power, last_power, validators, unbonding_queue, delete_range, open_iterator,
  remove_validators, new_validator, add_validator, add_signing_info, fund_account, fund_accounts,
  init_app_for_testnet,
}
use gnodi.Gnodid.InPlace.Replacing.{Replaced, IsKeyed, without, init_app_for_testnet-Replaced}
use gnodi.Gnodid.InPlace.Funding.{init_app_for_testnet_unfunded}

record Chain : Type 0 where
  keys : Range → List Bytes
  supply : ℕ

-- An empty address does not decode.
abbrev decode : Bytes → Option Bytes
decode [] = none
decode (c ∷ s) = some (c ∷ s)

abbrev toy : Keepers
toy = record {
  State = Chain;
  Any = Bytes;
  Coins = ℕ;
  new_any = λ b. some b;
  val_address_to_bytes = decode;
  acc_address_to_bytes = decode;
  cons_address_text = λ b. b;
  keys = λ r s. s.keys r;
  iterator_fails = λ r s. false;
  delete = λ key s. record s { keys = λ r. without key (s.keys r) };
  set_validator = λ v s. (some tt, s);
  set_validator_by_cons_addr = λ v s. (some tt, s);
  set_validator_by_power_index = λ v s. (some tt, s);
  set_last_validator_power = λ a n s. (some tt, s);
  after_validator_created = λ a s. (some tt, s);
  set_historical_rewards = λ a s. (some tt, s);
  set_current_rewards = λ a s. (some tt, s);
  set_accumulated_commission = λ a s. (some tt, s);
  set_outstanding_rewards = λ a s. (some tt, s);
  set_signing_info = λ a i s. (some tt, s);
  bond_denom = λ s. some (bytes "uGNOD");
  new_coins = λ d n. n;
  mint_coins = λ c s. (some tt, record s { supply = s.supply + c });
  send_coins = λ a c s. (some tt, s);
  last_block_height = λ s. 9;
}

toy-IsKeyed : IsKeyed toy
toy-IsKeyed r key s = refl

abbrev start : Chain
start = record {
  keys = λ r. elim r [
    | by_power ↦ bytes "a" ∷ bytes "b" ∷ []
    | last_power ↦ bytes "c" ∷ []
    | validators ↦ bytes "d" ∷ bytes "e" ∷ []
    | unbonding_queue ↦ []
  ];
  supply = 5;
}

-- What the flags hold, with the accounts to fund.
abbrev given : Bytes → Key → Value
given accounts new_val_addr = hex_bytes (bytes "cons")
given accounts user_pub_key = pub_key (bytes "key")
given accounts new_op_addr = text (bytes "val")
given accounts trigger_upgrade = text []
given accounts accounts_to_fund = text accounts
given accounts home = text (bytes "/home")

abbrev to_text : Value → Bytes
to_text (hex_bytes b) = b
to_text (pub_key b) = b
to_text (text b) = b
to_text nothing = []

abbrev args_for : List Bytes → ValArgs
args_for accounts = record {
  new_val_addr = bytes "cons";
  new_operator_address = bytes "val";
  new_val_pub_key = bytes "key";
  accounts_to_fund = accounts;
  upgrade_to_trigger = [];
  home_dir = bytes "/home";
}

abbrev two : List Bytes
two = bytes "x" ∷ bytes "y" ∷ []

abbrev ready : Chain
ready = (init_app_for_testnet toy (args_for two) start).1

sets_up : init_app_for_testnet toy (args_for two) start ≡ (ok tt, ready)
unfolding init_app_for_testnet remove_validators delete_range open_iterator add_validator
    new_validator add_signing_info fund_accounts fund_account each bytes_equal
sets_up = refl

init_app_for_testnet-Replaced_example : Replaced toy (args_for two) start ready
init_app_for_testnet-Replaced_example =
    init_app_for_testnet-Replaced toy toy-IsKeyed (args_for two) start ready sets_up

-- Without accounts to fund.
unfunded : get_command_args to_text (given []) ≡ ok (args_for ([] ∷ []))
unfolding get_command_args split
unfunded = refl

init_app_for_testnet_unfunded_example :
    init_app_for_testnet toy (args_for ([] ∷ [])) start ≢ (ok tt, start)
init_app_for_testnet_unfunded_example =
    init_app_for_testnet_unfunded toy to_text (given []) (args_for ([] ∷ [])) unfunded refl refl
      start start

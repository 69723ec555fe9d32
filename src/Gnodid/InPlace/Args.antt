-- ===== src/Gnodid/InPlace/Args.antt =====
-- The arguments of the in-place testnet: `getCommandArgs` of cmd/gnodid/cmd/testnet.go.
use gnodi.Base.{◌≡◌, List, [], ◌∷◌}
use gnodi.Base.Text.{Bytes}
use gnodi.Base.Result.{Result, ok, err, ◌>>=◌, bind-ok}
use gnodi.Gnodid.Strings.{split}

-- The values of `appOpts`: what the code asserts a type of, and everything else.
pub data Value : Type 0 where
  hex_bytes pub_key text : Bytes → Value
  nothing : Value

-- The keys that the code reads; their texts are those of the server package.
pub data Key : Type 0 where
  new_val_addr user_pub_key new_op_addr trigger_upgrade accounts_to_fund home : Key

pub record ValArgs : Type 0 where
  pub new_val_addr : Bytes
  pub new_operator_address : Bytes
  pub new_val_pub_key : Bytes
  pub accounts_to_fund : List Bytes
  pub upgrade_to_trigger : Bytes
  pub home_dir : Bytes

pub data ArgError : Type 0 where
  not_hex_bytes not_pub_key operator_not_text upgrade_not_text invalid_home_dir : ArgError

abbrev as_hex_bytes : Value → Result ArgError Bytes
as_hex_bytes (hex_bytes b) = ok b
as_hex_bytes _ = err not_hex_bytes

abbrev as_pub_key : Value → Result ArgError Bytes
as_pub_key (pub_key b) = ok b
as_pub_key _ = err not_pub_key

abbrev as_text : ArgError → Value → Result ArgError Bytes
as_text e (text b) = ok b
as_text e _ = err e

abbrev non_empty : Bytes → Result ArgError Bytes
non_empty [] = err invalid_home_dir
non_empty (c ∷ s) = ok (c ∷ s)

-- `getCommandArgs`, with `cast.ToString` as `to_text`.
unfoldable pub get_command_args : (Value → Bytes) → (Key → Value) → Result ArgError ValArgs
get_command_args to_text opts = do
  addr ← as_hex_bytes (opts new_val_addr)
  key ← as_pub_key (opts user_pub_key)
  operator ← as_text operator_not_text (opts new_op_addr)
  upgrade ← as_text upgrade_not_text (opts trigger_upgrade)
  dir ← non_empty (to_text (opts home))
  ok (record {
    new_val_addr = addr;
    new_operator_address = operator;
    new_val_pub_key = key;
    accounts_to_fund = split (to_text (opts accounts_to_fund));
    upgrade_to_trigger = upgrade;
    home_dir = dir;
  })

-- The accounts to fund are the pieces of one value.
pub get_command_args-accounts_to_fund :
    (to_text : Value → Bytes) (opts : Key → Value) (args : ValArgs)
    → get_command_args to_text opts ≡ ok args
    → args.accounts_to_fund ≡ split (to_text (opts accounts_to_fund))
unfolding get_command_args
get_command_args-accounts_to_fund to_text opts args h =
    let (a, _, h1) = bind-ok (as_hex_bytes (opts new_val_addr)) _ h in
    let (b, _, h2) = bind-ok (as_pub_key (opts user_pub_key)) _ h1 in
    let (c, _, h3) = bind-ok (as_text operator_not_text (opts new_op_addr)) _ h2 in
    let (d, _, h4) = bind-ok (as_text upgrade_not_text (opts trigger_upgrade)) _ h3 in
    let (e, _, h5) = bind-ok (non_empty (to_text (opts home))) _ h4 in accounts h5
  where
    accounts :
        {given : ValArgs}
        → ◌≡◌ {A = Result ArgError ValArgs} (ok given) (ok args)
        → args.accounts_to_fund ≡ given.accounts_to_fund
    accounts h = cc

-- ===== src/App/Tests/GenesisAccount.antt =====
-- An account of the genesis that vests between two times and belongs to no module.
use gnodi.Base.{◌≡◌, refl, ℕ, ◌==◌, [], none, ⊤}
use gnodi.Base.Text.{bytes_equal}
use gnodi.Base.Int.{pos}
use gnodi.Base.Result.{ok, err}
use gnodi.App.GenesisAccount.{AccountSdk, GenesisAccount, bad_vesting_times, validate_account}

abbrev sdk : AccountSdk
sdk = record {
  Coins = ℕ;
  BaseAccount = ⊤;
  Error = ⊤;
  is_zero = λ c. c == 0;
  validate_module_account = λ base name permissions. none;
  validate_base_account = λ base. none;
}

abbrev vesting : GenesisAccount sdk
vesting = record {
  base_account = tt;
  original_vesting = 50;
  delegated_free = 0;
  delegated_vesting = 0;
  start_time = pos 10;
  end_time = pos 20;
  module_name = [];
  module_permissions = [];
}

-- It is accepted, and not with its times exchanged.
vesting_accepted : validate_account sdk vesting ≡ ok tt
unfolding validate_account bytes_equal
vesting_accepted = refl

vesting_refused :
    validate_account sdk (record vesting { start_time = pos 20; end_time = pos 10 })
    ≡ err bad_vesting_times
unfolding validate_account bytes_equal
vesting_refused = refl

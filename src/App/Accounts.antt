-- ===== src/App/Accounts.antt =====
-- The module accounts of app/app.go: their permissions, and the addresses that may not receive coins.
-- The names of the modules and their addresses are outside the repository, so the addresses are a
-- parameter; a Go map to `true` is the list of its keys.
pub mod Blocked
use gnodi.Base.{Bool, true, false, List, [], ◌∷◌, map, if◌then◌else◌}
use gnodi.Base.Text.{Bytes, bytes_equal}

pub data Account : Type 0 where
  fee_collector distribution mint_module bonded_pool not_bonded_pool gov nft : Account
  ibc_transfer interchain_accounts distro evm fee_market erc20 precisebank : Account

pub data Permission : Type 0 where
  minter burner staking : Permission

unfoldable pub macc_perms : Account → List Permission
macc_perms mint_module = minter ∷ []
macc_perms bonded_pool = burner ∷ staking ∷ []
macc_perms not_bonded_pool = burner ∷ staking ∷ []
macc_perms gov = burner ∷ []
macc_perms ibc_transfer = minter ∷ burner ∷ []
macc_perms distro = minter ∷ burner ∷ staking ∷ []
macc_perms evm = minter ∷ burner ∷ []
macc_perms erc20 = minter ∷ burner ∷ []
macc_perms precisebank = minter ∷ burner ∷ []
macc_perms _ = []

-- The keys of `maccPerms`.
abbrev pub accounts : List Account
accounts =
    fee_collector ∷ distribution ∷ mint_module ∷ bonded_pool ∷ not_bonded_pool ∷ gov ∷ nft
    ∷ ibc_transfer ∷ interchain_accounts ∷ distro ∷ evm ∷ fee_market ∷ erc20 ∷ precisebank ∷ []

-- `delete(result, key)`
unfoldable pub delete : Bytes → List Bytes → List Bytes
delete key [] = []
delete key (a ∷ keys) = let rest = delete key keys in if bytes_equal a key then rest else a ∷ rest

unfoldable pub has_key : Bytes → List Bytes → Bool
has_key key [] = false
has_key key (a ∷ keys) = let rest = has_key key keys in if bytes_equal key a then true else rest

unfoldable pub blocked_addrs : (Account → Bytes) → List Bytes
blocked_addrs address = delete (address gov) (map address accounts)

-- `GetMaccPerms`: the entries of a copy of the map.
unfoldable pub copy_perms : List Account → List (Account × List Permission)
copy_perms [] = []
copy_perms (k ∷ keys) = (k, macc_perms k) ∷ copy_perms keys

unfoldable pub get_macc_perms : List (Account × List Permission)
get_macc_perms = copy_perms accounts

unfoldable pub blocked_addresses : (Account → Bytes) → List Bytes
blocked_addresses address = blocked_addrs address

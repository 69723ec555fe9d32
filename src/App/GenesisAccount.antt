-- ===== src/App/GenesisAccount.antt =====
-- app/genesis_account.go: the check of an account of the genesis. Coins, base accounts and module
-- accounts are outside the repository.
use gnodi.Base.{
  ◌↔◌, ◌⊎◌, ◌≡◌, arith, Bool, true, not, List, [], Option, none, some, ⊤, if◌then◌else◌,
}
use gnodi.Base.Text.{Bytes, bytes_equal, bytes_equal_iff}
use gnodi.Base.Result.{Result, ok, err, ◌>>◌, fail_if}
use gnodi.Base.Int.{ℤ, ltb_ℤ}

pub data AccountError (E : Type 0) : Type 0 where
  bad_vesting_times : AccountError E
  bad_account : E → AccountError E

pub record AccountSdk : Type 1 where
  pub Coins : Type 0
  pub BaseAccount : Type 0
  pub Error : Type 0
  pub is_zero : Coins → Bool
  -- `ModuleAccount.Validate` on a base account, a name and permissions, and that of a base account;
  -- no value is no error.
  pub validate_module_account : BaseAccount → Bytes → List Bytes → Option Error
  pub validate_base_account : BaseAccount → Option Error

module _ (k : AccountSdk) where
  open k use {Coins, BaseAccount, Error}

  pub record GenesisAccount : Type 0 where
    pub base_account : BaseAccount
    pub original_vesting : Coins
    pub delegated_free : Coins
    pub delegated_vesting : Coins
    pub start_time : ℤ
    pub end_time : ℤ
    pub module_name : Bytes
    pub module_permissions : List Bytes

  abbrev of_error : Option Error → Result (AccountError Error) ⊤
  of_error none = ok tt
  of_error (some e) = err (bad_account e)

  unfoldable pub validate_account : GenesisAccount → Result (AccountError Error) ⊤
  validate_account sga = do
    if not (k.is_zero sga.original_vesting)
        then fail_if (not (ltb_ℤ sga.start_time sga.end_time)) bad_vesting_times
        else ok tt
    if not (bytes_equal sga.module_name [])
        then of_error
            (k.validate_module_account sga.base_account sga.module_name sga.module_permissions)
        else ok tt
    of_error (k.validate_base_account sga.base_account)

  -- An account is accepted exactly when it vests nothing or its vesting starts before it ends, it
  -- has no module name or is a valid account of its module, and its base account is valid.
  pub validate_account_iff :
      (sga : GenesisAccount)
      → (validate_account sga ≡ ok tt) ↔ (
          ((k.is_zero sga.original_vesting ≡ true) ⊎ (ltb_ℤ sga.start_time sga.end_time ≡ true))
          × ((sga.module_name ≡ [])
              ⊎ (k.validate_module_account sga.base_account sga.module_name sga.module_permissions
                  ≡ none))
          × (k.validate_base_account sga.base_account ≡ none))
  unfolding validate_account
  validate_account_iff sga = ground (arith, bytes_equal_iff sga.module_name [])

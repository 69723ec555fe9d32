-- ===== src/App/Blocks.antt =====
-- The block hooks of app/app.go: the hotfix of the minimum gas price, the burn of the coins that an
-- exploit minted, and what every other block does. The keepers and the module manager are outside the
-- repository: the record `Keepers` holds what the hooks call.
pub mod Burn
pub mod Chain
pub mod Hooks
use gnodi.Base.{ℕ, Bool, List, [], ◌∷◌, ⊤, Option, ◌==◌, if◌then◌else◌}
use gnodi.Base.Text.{Bytes, bytes}
use gnodi.Base.Result.{Result}
use gnodi.App.Upgrades.{FeeParams}
use gnodi.Base.Action.{Action, Call, ◌>>=◌, ◌>>◌, pure, gets, try, have, each}

abbrev pub min_gas_price_hotfix_height : ℕ
min_gas_price_hotfix_height = 340_100

abbrev pub security_burn_height : ℕ
security_burn_height = 670_553

abbrev pub security_burn_accounts : List Bytes
security_burn_accounts =
    bytes "gnodi18kmwswajr0khc2xuxy7s7mnljnsscd6x25s98x"
    ∷ bytes "gnodi1drflazqqvadznpgaz5q4ypx8rm9gevhv7u645k"
    ∷ bytes "gnodi1l9w2uje6z6gf23el4589sy55fkrp0ljxsq8vyl"
    ∷ []

-- Why the burn stops, and why a hook does. Every error of the first two steps is a panic.
pub data BurnError : Type 0 where
  bad_address : Bytes → BurnError
  not_collected : Bytes → BurnError
  not_burned : Bytes → BurnError

pub data BlockError : Type 0 where
  hotfix_panic : BlockError
  burn_panic : BurnError → BlockError
  module_error : BlockError

pub record Keepers : Type 1 where
  pub State : Type 0
  pub Coins : Type 0
  pub FeeRest : Type 0
  pub Events : Type 0
  pub PreBlocked : Type 0
  pub Ended : Type 0
  -- `sdk.AccAddressFromBech32`
  pub acc_address_from_bech32 : Bytes → Option Bytes
  -- `GetAllBalances`, `Coins.IsZero`, `Coins.Add`, the empty coins
  pub get_all_balances : Bytes → State → Coins
  pub is_zero : Coins → Bool
  pub add : Coins → Coins → Coins
  pub no_coins : Coins
  -- `SendCoinsFromAccountToModule` and `BurnCoins`, both for x/vm
  pub send_to_vm : Bytes → Coins → Call State ⊤
  pub burn_in_vm : Coins → Call State ⊤
  pub get_fee_params : State → FeeParams FeeRest
  pub set_fee_params : FeeParams FeeRest → Call State ⊤
  -- `PreBlock`, `BeginBlock` and `EndBlock` of the module manager
  pub pre_block : Call State PreBlocked
  pub begin_block : Call State Events
  pub end_block : Call State Ended

module _ (k : Keepers) where
  open k use {
    State, Coins, Events, acc_address_from_bech32, get_all_balances, is_zero, add, no_coins,
  }
  open k use {send_to_vm, burn_in_vm, get_fee_params, set_fee_params}
  open k use {PreBlocked, Ended, pre_block, begin_block, end_block}

  -- The two bank calls for one account.
  unfoldable pub collect :
      {A : Type 0} → Bytes → Bytes → Coins → Action BurnError State A → Action BurnError State A
  collect addr bech32 balances rest = do
    try (send_to_vm addr balances) (not_collected bech32)
    try (burn_in_vm balances) (not_burned bech32)
    rest

  -- The loop of `applySecurityBurn`; it returns what has been burned.
  unfoldable pub burn_accounts : List Bytes → Coins → Action BurnError State Coins
  burn_accounts [] burned = pure burned
  burn_accounts (bech32 ∷ rest) burned = do
    addr ← have (acc_address_from_bech32 bech32) (bad_address bech32)
    balances ← gets (get_all_balances addr)
    if is_zero balances
        then burn_accounts rest burned
        else collect addr bech32 balances (burn_accounts rest (add burned balances))

  unfoldable pub apply_security_burn : Action BurnError State Coins
  apply_security_burn = burn_accounts security_burn_accounts no_coins

  unfoldable pub apply_hotfix : Action BlockError State ⊤
  apply_hotfix = do
    params ← gets get_fee_params
    try (set_fee_params (record params { min_gas_price = 0 })) hotfix_panic

  -- `if err := app.applySecurityBurn(ctx); err != nil { panic }`
  unfoldable pub burn_or_panic : Action BlockError State ⊤
  burn_or_panic s =
      let (r, s') = apply_security_burn s in
      elim r [ Result.ok _ ↦ (Result.ok tt, s') | Result.err e ↦ (Result.err (burn_panic e), s') ]

  unfoldable pub begin_blocker : ℕ → Action BlockError State Events
  begin_blocker height = do
    if height == min_gas_price_hotfix_height then apply_hotfix else pure tt
    if height == security_burn_height then burn_or_panic else pure tt
    try begin_block module_error

  unfoldable pub pre_blocker : Action BlockError State PreBlocked
  pre_blocker = try pre_block module_error

  unfoldable pub end_blocker : Action BlockError State Ended
  end_blocker = try end_block module_error

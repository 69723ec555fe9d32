-- ===== src/Distro/Halving.antt =====
-- The emission schedule of x/distro/keeper/msg_server_mint.go: `halvingPeriodLimit` and the loop of
-- `validateMintingLimits` that adds up the periods that are over. Numbers are uint64; `none` is a
-- run-time panic.
pub mod Bounds
use gnodi.Base.{ℕ, zero, suc, ◌+◌, ◌-◌, ◌%◌, ◌^◌, Option, none, some, ◌||◌, ltb, ◌==◌}
use gnodi.Base.{if◌then◌else◌}
use gnodi.Base.Partial.{◌>>=◌, checked_div}

-- `uint64(1) << n`
unfoldable pub shifted_one : ℕ → ℕ
shifted_one n = 2 ^ n % 2 ^ 64

unfoldable pub halving_period_limit : ℕ → ℕ → Option ℕ
halving_period_limit max_supply period =
    if period == 0 || ltb 64 period
    then some 0
    else do share ← checked_div max_supply (shifted_one (period - 1)); checked_div share 2

-- `for period := uint64(1); period < currentHalvingPeriod; period++`, on the rounds that are left.
unfoldable pub add_periods : ℕ → ℕ → ℕ → ℕ → Option ℕ
add_periods zero max_supply period total = some total
add_periods (suc rounds) max_supply period total = do
  limit ← halving_period_limit max_supply period
  add_periods rounds max_supply (period + 1) ((total + limit) % 2 ^ 64)

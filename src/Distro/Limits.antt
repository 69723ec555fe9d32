-- ===== src/Distro/Limits.antt =====
-- `validateMintingLimits` of x/distro/keeper/msg_server_mint.go, on uint64 and int64 with their
-- wrap-around. `math.Uint`, which is unbounded here, is a natural number.
pub mod Period
pub mod Total
pub mod Plan
pub mod Schedule
pub mod Verdict
use gnodi.Base.{ℕ, zero, suc, ◌+◌, ◌-◌, ◌*◌, ◌%◌, ◌^◌, Bool, ltb, ◌==◌, if◌then◌else◌}
use gnodi.Base.{Option, none, some, ⊤}
use gnodi.Base.Int.{ℤ, pos, negsuc, pos_part, ltb_ℤ}
use gnodi.Base.Partial.{checked_div}
use gnodi.Calendar.{Date, Runtime, time_date, sub_days}
use gnodi.Calendar.Text.{parse_date, format_date}
use gnodi.Distro.Params.{Params}
use gnodi.Distro.Months.{add_months, months_between}
use gnodi.Distro.Halving.{halving_period_limit, add_periods}
use gnodi.Distro.Outcome.{Outcome, ok, err, or_fail, or_panic, fail_if, ◌>>=◌, ◌>>◌}
use gnodi.Distro.Outcome.{invalid_start_date, invalid_target_date, target_before_start}
use gnodi.Distro.Outcome.{exceeds_distributable}

-- `int(n)` on a uint64.
unfoldable pub to_int : ℕ → ℤ
to_int n = if ltb n (2 ^ 63) then pos n else negsuc (2 ^ 64 - n - 1)

-- `t.AddDate(0, 0, -1)`
unfoldable pub previous_day : Date → Date
previous_day t = time_date t.year t.month (t.day - 1)

-- `1 + uint64(months)/params.MonthsInHalvingPeriod`
unfoldable pub current_halving_period : ℕ → ℕ → Outcome ℕ
current_halving_period months months_per_period = do
  over ← or_panic (checked_div months months_per_period)
  ok ((1 + over) % 2 ^ 64)

-- The bounds of a period, which is 1 or more.
unfoldable pub period_start : Runtime → Date → ℕ → ℕ → Date
period_start runtime start_date months_per_period period =
    add_months runtime start_date (to_int ((period - 1) * months_per_period % 2 ^ 64))

unfoldable pub period_end : Runtime → Date → ℕ → ℕ → Date
period_end runtime start_date months_per_period period =
    previous_day (add_months runtime start_date (to_int (period * months_per_period % 2 ^ 64)))

-- `uint64(f)` for the float64 `f` of the days, and what is counted with it.
module _ (runtime : Runtime) where
  unfoldable pub unsigned_days : ℤ → ℕ
  unsigned_days (pos n) = n
  unsigned_days (negsuc n) = runtime.negative_days (suc n)

  unfoldable pub days_in_period : Date → Date → ℕ
  days_in_period first last = (unsigned_days (sub_days last first) + 1) % 2 ^ 64

  unfoldable pub days_elapsed : Date → Date → ℕ → ℕ
  days_elapsed first target days =
      let elapsed = unsigned_days (sub_days target first) in
      if ltb days elapsed then days else elapsed

-- `(periodYearlyLimit * daysElapsed) / daysInPeriod`, or nothing if the period has no days.
unfoldable pub current_period_amount : ℕ → ℕ → ℕ → Outcome ℕ
current_period_amount limit elapsed days =
    if days == 0 then ok 0 else or_panic (checked_div (limit * elapsed % 2 ^ 64) days)

module _ (runtime : Runtime) where
  -- What the current period has released so far.
  unfoldable pub period_amount : Params → Date → Date → ℕ → Outcome ℕ
  period_amount params start_date target_date period = do
    let first = period_start runtime start_date params.months_in_halving_period period
    let last = period_end runtime start_date params.months_in_halving_period period
    let days = days_in_period runtime first last
    limit ← or_panic (halving_period_limit params.max_supply period)
    current_period_amount limit (days_elapsed runtime first target_date days) days

  -- `totalDistributable`, once the dates are read and the months between them counted.
  unfoldable pub total_distributable : Params → Date → Date → ℕ → Outcome ℕ
  total_distributable params start_date target_date months = do
    period ← current_halving_period months params.months_in_halving_period
    past ← or_panic (add_periods (period - 1) params.max_supply 1 0)
    if ltb 0 period
        then (do
          amount ← period_amount params start_date target_date period
          ok ((past + amount) % 2 ^ 64))
        else ok past

  -- The test of `validateMintingLimits` on a count of months, of which -1 means a target too early.
  unfoldable pub limit_at : Params → Date → Date → ℤ → Outcome ℕ
  limit_at params start_date target_date (pos months) =
      total_distributable params start_date target_date months
  limit_at params start_date target_date (negsuc _) = err target_before_start

  -- `block_time` is the date of `ctx.BlockTime()` in UTC.
  unfoldable pub validate_minting_limits : Date → ℕ → ℕ → Params → Outcome ⊤
  validate_minting_limits block_time current_supply amount params = do
    start_date ← or_fail (parse_date params.distribution_start_date) invalid_start_date
    target_date ← or_fail (parse_date (format_date block_time)) invalid_target_date
    total ← limit_at params start_date target_date (months_between start_date target_date)
    fail_if (ltb total (amount + current_supply)) (exceeds_distributable total)

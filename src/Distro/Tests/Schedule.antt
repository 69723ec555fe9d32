-- ===== src/Distro/Tests/Schedule.antt =====
-- The theorems about the minting limits, for the launch parameters on two days of the first year, and
-- for parameters whose products wrap around.
use gnodi.Base.{
  ℕ, ◌+◌, ◌-◌, ◌*◌, ◌/◌, ◌^◌, ◌≤◌, ◌<◌, ◌≡◌, ◌↔◌, refl, arith, true, false, some, List, [], ◌∷◌,
}
use gnodi.Base.Int.{pos, ◌+ℤ◌, ◌-ℤ◌, ◌*ℤ◌}
use gnodi.Calendar.{
  Date, before, day_number, days_before_year, year_start, month_start, is_leap, days_in,
  days_in_month, time_date,
}
use gnodi.Calendar.Months.{month_number, month_length}
use gnodi.Calendar.Text.{parse_date, four_digits, two_digits, skip_dash, at_end}
use gnodi.Calendar.Text.RoundTrip.{IsCommon}
use gnodi.Distro.Params.{Params}
use gnodi.Distro.Months.{months_between, full_months}
use gnodi.Distro.Months.Numbers.{number, number_after}
use gnodi.Distro.Outcome.{ok}
use gnodi.Distro.Limits.{limit_at}
use gnodi.Distro.Limits.Plan.{scheduled}
use gnodi.Distro.Limits.Schedule.{IsRun, Fits, limit_at-le, limit_at-scheduled, limit_at_wrapped}
use gnodi.Distro.Keeper.OnSchedule.{mint_on_schedule}
use gnodi.Base.Text.{bytes}
use gnodi.Distro.Keeper.Due.{IsReady, mint_iff_due}
use gnodi.Distro.Keeper.{MsgMint, mint}
use gnodi.Distro.Keeper.Trace.{mint_all}
use gnodi.Distro.Keeper.History.{IsOnSchedule, mint_all-IsOnSchedule}
use gnodi.Distro.Tests.Messages.{minted}
use gnodi.Distro.Tests.Chain.{toy, toy_laws, active, fresh, launch, new_year, request, issued_once}

abbrev easter : Date
easter = record { year = pos 2026; month = 4; day = 5 }

abbrev eve : Date
eve = record { year = pos 2025; month = 7; day = 21 }

IsCommon-date :
    (y m d : ℕ)
    → y ≤ 9999
    → 1 ≤ m
    → m ≤ 12
    → 1 ≤ d
    → d ≤ 28
    → IsCommon (record { year = pos y; month = m; day = d })
unfolding days_in days_in_month
IsCommon-date y m d a b c e f = record {
  is_date = record { from_month = b; to_month = c; from_day = e; to_day = ground arith };
  from_year = omega arith;
  to_year = ground arith;
}

launch-IsRun : (t : Date) → IsCommon t → before t launch ≡ false → IsRun active launch t
launch-IsRun t h e = record {
  start_date =
      IsCommon-date 2025 7 22 (omega arith) (omega arith) (omega arith) (omega arith) (omega arith);
  target_date = h;
  in_order = e;
  some_months = omega arith;
  few_months = omega arith;
  supply = omega arith;
}

new_year-IsCommon : IsCommon new_year
new_year-IsCommon =
    IsCommon-date 2026 1 10 (omega arith) (omega arith) (omega arith) (omega arith) (omega arith)

easter-IsCommon : IsCommon easter
easter-IsCommon =
    IsCommon-date 2026 4 5 (omega arith) (omega arith) (omega arith) (omega arith) (omega arith)

eve-IsCommon : IsCommon eve
eve-IsCommon =
    IsCommon-date 2025 7 21 (omega arith) (omega arith) (omega arith) (omega arith) (omega arith)

new_year_later : before new_year launch ≡ false
unfolding before day_number days_before_year year_start month_start is_leap days_in_month ◌+ℤ◌ ◌-ℤ◌
new_year_later = refl

easter_later : (before easter launch ≡ false) × (before easter new_year ≡ false)
unfolding before day_number days_before_year year_start month_start is_leap days_in_month ◌+ℤ◌ ◌-ℤ◌
easter_later = (refl, refl)

eve_earlier : before eve launch ≡ true
unfolding before day_number days_before_year year_start month_start is_leap days_in_month ◌+ℤ◌ ◌-ℤ◌
eve_earlier = refl

to_new_year : IsRun active launch new_year
to_new_year = launch-IsRun new_year new_year-IsCommon new_year_later

to_easter : IsRun active launch easter
to_easter = launch-IsRun easter easter-IsCommon easter_later.0

fits : Fits active
fits = omega arith

five_months : months_between launch new_year ≡ pos 5
unfolding months_between full_months time_date before day_number days_before_year year_start
    month_start is_leap days_in_month ◌+ℤ◌ ◌-ℤ◌ ◌*ℤ◌ days_in
five_months = refl

eight_months : months_between launch easter ≡ pos 8
unfolding months_between full_months time_date before day_number days_before_year year_start
    month_start is_leap days_in_month ◌+ℤ◌ ◌-ℤ◌ ◌*ℤ◌ days_in
eight_months = refl

limit_at-le_example :
    (total : ℕ) × (limit_at toy.runtime active launch new_year (months_between launch new_year)
      ≡ ok total)
    × (total ≤ active.max_supply)
limit_at-le_example = limit_at-le toy.runtime active launch new_year to_new_year

limit_at-scheduled_example :
    limit_at toy.runtime active launch new_year (months_between launch new_year)
    ≡ ok (scheduled active.max_supply 12 launch new_year 5)
limit_at-scheduled_example =
    limit_at-scheduled toy.runtime active launch new_year 5 to_new_year fits five_months

-- The largest supply that a uint64 holds.
abbrev huge : Params
huge = record active { max_supply = 18_446_744_073_709_551_615 }

huge-IsRun : IsRun huge launch new_year
huge-IsRun = record {
  start_date = to_new_year.start_date;
  target_date = new_year-IsCommon;
  in_order = new_year_later;
  some_months = omega arith;
  few_months = omega arith;
  supply = omega arith;
}

overflow :
    2 ^ 64
    ≤ huge.max_supply / 2 ^ (5 / 12 + 1) * (number new_year - number_after launch (5 / 12 * 12))
unfolding number number_after month_number year_start month_start is_leap month_length days_in
    days_in_month
overflow = omega arith

limit_at_wrapped_example :
    (total : ℕ) × (limit_at toy.runtime huge launch new_year (months_between launch new_year)
      ≡ ok total)
    × (total < scheduled huge.max_supply 12 launch new_year 5)
limit_at_wrapped_example =
    limit_at_wrapped toy.runtime huge launch new_year 5 huge-IsRun five_months overflow

launch_read : parse_date active.distribution_start_date ≡ some launch
unfolding parse_date four_digits two_digits skip_dash at_end days_in is_leap days_in_month
launch_read = refl

mint_on_schedule_example :
    toy.get_supply active.denom issued_once ≤ scheduled active.max_supply 12 launch new_year 5
mint_on_schedule_example =
    mint_on_schedule toy toy_laws new_year launch request active 5 fresh issued_once refl
      launch_read to_new_year fits five_months minted

not_after_eve : before new_year eve ≡ false
unfolding before day_number days_before_year year_start month_start is_leap days_in_month
not_after_eve = refl

not_after_itself : before new_year new_year ≡ false
unfolding before day_number days_before_year year_start month_start is_leap days_in_month
not_after_itself = refl

-- One mint before the start, and one on the day.
abbrev history : List (Date × MsgMint)
history = (eve, request) ∷ (new_year, request) ∷ []

mint_all-IsOnSchedule_example :
    IsOnSchedule toy toy_laws active launch new_year 5 to_new_year fits five_months launch_read
      (mint_all toy history fresh)
mint_all-IsOnSchedule_example =
    mint_all-IsOnSchedule toy toy_laws active launch new_year 5 to_new_year fits five_months
      launch_read history fresh
      ((eve-IsCommon, not_after_eve), ((new_year-IsCommon, not_after_itself), tt))
      (record { stored = refl; within = omega arith })

ready : IsReady toy toy_laws request active fresh issued_once
ready = record {
  authorized = (bytes "minter", refl, refl);
  counted = refl;
  coins = (bytes "uGNOD", 1000);
  formed = refl;
  minted_state = issued_once;
  mints = refl;
  receiver = bytes "treasury";
  receives = refl;
  sends = refl;
}

mint_iff_due_example :
    (mint toy new_year request fresh ≡ (ok tt, issued_once))
    ↔ (toy.get_supply active.denom fresh + 1000 ≤ scheduled active.max_supply 12 launch new_year 5)
mint_iff_due_example =
    mint_iff_due toy toy_laws new_year launch active 5 to_new_year fits five_months launch_read
      request fresh issued_once refl ready

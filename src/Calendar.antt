-- ===== src/Calendar.antt =====
-- What the minting limits use of Go's package `time`: instants at midnight UTC, as civil dates.
-- `time_date` is exact for every year. Go counts the seconds in 64 bits, which hold the years up to
-- 292277022399 on both sides of 0: for a year that is computed, `go_date` leaves what lies beyond
-- 292 billion to the runtime.
pub mod Months
pub mod Order
pub mod Text
use gnodi.Base.{ℕ, zero, suc, ◌+◌, ◌-◌, ◌*◌, ◌/◌, ◌%◌, ◌≤◌, ◌≡◌, Bool, ◌&&◌, ◌||◌, not}
use gnodi.Base.{ltb, leb, ◌==◌, if◌then◌else◌}
use gnodi.Base.Int.{ℤ, pos, negsuc, pos_part, neg_part, sub_ℕ, ◌+ℤ◌, ◌-ℤ◌, ltb_ℤ}

pub record Date : Type 0 where
  pub year : ℤ
  pub month : ℕ
  pub day : ℕ

-- The leap years below zero mirror those above it.
unfoldable pub is_leap : ℤ → Bool
is_leap y = let n = pos_part y + neg_part y in n % 4 == 0 && (not (n % 100 == 0) || n % 400 == 0)

unfoldable pub days_in_month : Bool → ℕ → ℕ
days_in_month leap m =
    if m == 2
    then (if leap then 29 else 28)
    else if m == 4 || m == 6 || m == 9 || m == 11
    then 30
    else 31

unfoldable pub days_in : ℤ → ℕ → ℕ
days_in y m = days_in_month (is_leap y) m

-- `time.Date(y, m, d, 0, 0, 0, 0, time.UTC)` for a month of 1 to 13 and a day of 0 up to the last of
-- the month: month 13 is January of the next year, and day 0 the last day of the month before.
unfoldable pub time_date : ℤ → ℕ → ℕ → Date
time_date y m d =
    if ltb 0 d
    then (if m == 13
        then record { year = y +ℤ pos 1; month = 1; day = d }
        else record { year = y; month = m; day = d })
    else if m == 1
    then record { year = y -ℤ pos 1; month = 12; day = 31 }
    else record { year = y; month = m - 1; day = days_in y (m - 1) }

-- What Go computes and does not document: `negative_days n` is `uint64(f)` for the float64 `f` = -n,
-- and `far_date` the day that `time.Date` gives for a year that its seconds cannot hold.
pub record Runtime : Type 0 where
  pub negative_days : ℕ → ℕ
  pub far_date : ℤ → ℕ → ℕ → Date

-- `time.Date` for a year that was computed.
unfoldable pub go_date : Runtime → ℤ → ℕ → ℕ → Date
go_date runtime y m d =
    if leb (pos_part y + neg_part y) 292000000000 then time_date y m d else runtime.far_date y m d

-- A runtime on which every year has its calendar.
abbrev pub exact : Runtime
exact = record { negative_days = λ n. n; far_date = time_date }

-- The first day of the year `y`, counted from January 1 of the year 0.
unfoldable pub year_start : ℕ → ℕ
year_start y = y * 365 + (y + 3) / 4 + (y + 399) / 400 - (y + 99) / 100

unfoldable pub days_before_year : ℤ → ℤ
unfolding year_start
days_before_year (pos y) = pos (year_start y)
days_before_year (negsuc n) = let k = n + 1 in sub_ℕ 0 (k * 365 + k / 4 + k / 400 - k / 100)

-- The days of the year before the month `m` begins.
unfoldable pub month_start : Bool → ℕ → ℕ
unfolding days_in_month
month_start leap zero = 0
month_start leap (suc zero) = 0
month_start leap (suc (suc m)) = month_start leap (suc m) + days_in_month leap (suc m)

-- The days from January 1 of the year 0 to `t`.
unfoldable pub day_number : Date → ℤ
unfolding days_before_year month_start is_leap ◌+ℤ◌
day_number t = days_before_year t.year +ℤ pos (month_start (is_leap t.year) t.month + t.day - 1)

-- `a.Before(b)`
unfoldable pub before : Date → Date → Bool
before a b = ltb_ℤ (day_number a) (day_number b)

-- `a.Sub(b).Hours() / 24` in whole days. A `Duration` saturates at 2 ^ 63 nanoseconds, which are
-- 106751 days and some hours.
unfoldable pub sub_days : Date → Date → ℤ
sub_days a b =
    let d = day_number a -ℤ day_number b in
    if ltb 106751 (pos_part d)
    then pos 106751
    else if ltb 106751 (neg_part d)
    then negsuc 106750
    else d

-- A civil date: what `time.Parse` returns.
pub record IsDate (t : Date) : Type 0 where
  pub from_month : 1 ≤ t.month
  pub to_month : t.month ≤ 12
  pub from_day : 1 ≤ t.day
  pub to_day : t.day ≤ days_in t.year t.month

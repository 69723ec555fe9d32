-- ===== src/Distro/Months.antt =====
-- The two calendar helpers of x/distro/keeper/msg_server_mint.go. The sums of
-- `addMonths`, whose count of months is any int64, wrap around as Go's `int` does; those of
-- `monthsBetween` stay far inside 64 bits for every year that a `time.Time` can hold.
pub mod AddMonths
pub mod Between
pub mod Numbers
use gnodi.Base.{ℕ, ◌+◌, Bool, ltb, ◌==◌, if◌then◌else◌}
use gnodi.Base.Int.{ℤ, pos, negsuc, pos_part, ◌+ℤ◌, ◌-ℤ◌, ◌*ℤ◌, quot, rem, ltb_ℤ, wrap_int}
use gnodi.Calendar.{Date, Runtime, time_date, go_date, before}

-- The clamp at the end of `addMonths`: the day, or the last day of the month `m` of `y`.
unfoldable pub clamp_day : Runtime → ℤ → ℕ → ℕ → Date
clamp_day runtime y m d =
    let last_day = (go_date runtime y (m + 1) 0).day in
    go_date runtime y m (if ltb last_day d then last_day else d)

unfoldable pub add_months : Runtime → Date → ℤ → Date
add_months runtime t months =
    let target = wrap_int (wrap_int (pos t.month +ℤ months) -ℤ pos 1) in
    let target_year = t.year +ℤ quot target 12 in
    let target_month = rem target 12 +ℤ pos 1 in
    if ltb_ℤ target_month (pos 1)
    then clamp_day runtime (target_year -ℤ pos 1) (pos_part (target_month +ℤ pos 12)) t.day
    else clamp_day runtime target_year (pos_part target_month) t.day

-- The correction of `monthsBetween` for the day of the month.
unfoldable pub full_months : Date → Date → ℤ → ℤ
full_months start end months =
    if ltb end.day start.day
    then (if end.day == (time_date end.year (end.month + 1) 0).day then months else months -ℤ pos 1)
    else months

unfoldable pub months_between : Date → Date → ℤ
months_between start end =
    if before end start
    then negsuc 0
    else (let months =
          full_months start end
            (((end.year -ℤ start.year) *ℤ 12 +ℤ pos end.month) -ℤ pos start.month) in
        if ltb_ℤ months (pos 0) then pos 0 else months)

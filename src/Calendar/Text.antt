-- ===== src/Calendar/Text.antt =====
-- `time.Parse` and `Time.Format` at the layout "2006-01-02", by their steps: a year of exactly four
-- digits, and a month and a day of exactly two. `none` is any parse error.
pub mod RoundTrip
use gnodi.Base.{ℕ, zero, suc, ◌+◌, ◌-◌, ◌*◌, ◌/◌, ◌%◌, ◌≤◌, ◌<◌, ◌≡◌, refl, Bool, true, false}
use gnodi.Base.{◌&&◌, ltb, leb, ◌==◌, if◌then◌else◌, arith, Option, none, some, List, [], ◌∷◌, ◌++◌}
use gnodi.Base.Int.{ℤ, pos, negsuc}
use gnodi.Base.Text.{Bytes}
use gnodi.Base.Partial.{◌>>=◌, ◌>>◌, guard}
use gnodi.Calendar.{Date, days_in}

abbrev pub is_digit : ℕ → Bool
is_digit c = leb b'0' c && leb c b'9'

unfoldable pub four_digits : Bytes → Option (ℕ × Bytes)
four_digits (a ∷ b ∷ c ∷ d ∷ rest) =
    guard (is_digit a && (is_digit b && (is_digit c && is_digit d)))
    >> some ((a - b'0') * 1000 + (b - b'0') * 100 + (c - b'0') * 10 + (d - b'0'), rest)
four_digits _ = none

-- `getnum(value, true)`
unfoldable pub two_digits : Bytes → Option (ℕ × Bytes)
two_digits (a ∷ b ∷ rest) =
    guard (is_digit a && is_digit b) >> some ((a - b'0') * 10 + (b - b'0'), rest)
two_digits _ = none

unfoldable pub skip_dash : Bytes → Option Bytes
skip_dash (c ∷ rest) = guard (c == b'-') >> some rest
skip_dash [] = none

unfoldable pub at_end : Bytes → Bool
at_end [] = true
at_end (_ ∷ _) = false

unfoldable pub parse_date : Bytes → Option Date
parse_date value = do
  (year, value) ← four_digits value
  value ← skip_dash value
  (month, value) ← two_digits value
  guard (leb 1 month && leb month 12)
  value ← skip_dash value
  (day, value) ← two_digits value
  guard (at_end value)
  guard (leb 1 day && leb day (days_in (pos year) month))
  some (record { year = pos year; month = month; day = day })

-- The decimal digits of `n` before those in `out`; 20 rounds are enough for a uint64.
unfoldable pub decimal : ℕ → ℕ → Bytes → Bytes
decimal zero n out = out
decimal (suc rounds) n out =
    let longer = decimal rounds (n / 10) ((b'0' + n % 10) ∷ out) in
    if ltb n 10 then (b'0' + n) ∷ out else longer

-- `appendInt` at the widths 4 and 2.
unfoldable pub four_wide : ℕ → Bytes
four_wide n =
    if ltb n 10000
    then (b'0' + n / 1000) ∷ (b'0' + n / 100 % 10) ∷ (b'0' + n / 10 % 10) ∷ (b'0' + n % 10) ∷ []
    else decimal 20 n []

unfoldable pub format_year : ℤ → Bytes
format_year (pos n) = four_wide n
format_year (negsuc n) = b'-' ∷ four_wide (suc n)

unfoldable pub two_wide : ℕ → Bytes
two_wide n = (b'0' + n / 10) ∷ (b'0' + n % 10) ∷ []

unfoldable pub format_date : Date → Bytes
format_date t = format_year t.year ++ (b'-' ∷ (two_wide t.month ++ (b'-' ∷ two_wide t.day)))

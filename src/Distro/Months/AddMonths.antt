-- ===== src/Distro/Months/AddMonths.antt =====
-- `addMonths` by month index: the same day `n` months on, or the last day of that month.
use gnodi.Base.{ℕ, ◌+◌, ◌-◌, ◌/◌, ◌%◌, ◌^◌, ◌≤◌, ◌<◌, ◌≡◌, false}
use gnodi.Base.{refl, ◌∙◌, ltb, ◌==◌, if◌then◌else◌, arith}
use gnodi.Base.Int.{ℤ, pos, ◌+ℤ◌, ◌-ℤ◌, quot, rem, ltb_ℤ, wrap_int}
use gnodi.Calendar.{Runtime, days_in, days_in_month, time_date, go_date}
use gnodi.Calendar.Months.{month_length}
use gnodi.Calendar.Order.{date_at}
use gnodi.Distro.Months.{clamp_day, add_months}

abbrev pub lesser : ℕ → ℕ → ℕ
lesser a b = if ltb b a then b else a

not_one : (m : ℕ) → 1 ≤ m → ((m + 1) == 1) ≡ false
not_one m h = ground arith

month_before : (m : ℕ) → m + 1 - 1 ≡ m
month_before m = omega arith

-- Day 0 of the next month is the last day of this one.
pub day_zero : (y : ℤ) (m : ℕ) → 1 ≤ m → (time_date y (m + 1) 0).day ≡ days_in y m
unfolding time_date
day_zero y m lo = rw (not_one m lo, month_before m)

days_in_pos : (y : ℤ) (m : ℕ) → 28 ≤ days_in y m
unfolding days_in days_in_month
days_in_pos y m = ground arith

time_date_plain :
    (y : ℤ) (m d : ℕ) → m ≤ 12 → 1 ≤ d → time_date y m d ≡ record { year = y; month = m; day = d }
unfolding time_date
time_date_plain y m d h k = ground arith

lesser_pos : (a b : ℕ) → 1 ≤ a → 1 ≤ b → 1 ≤ lesser a b
lesser_pos a b h k = ground arith

go_date_near :
    (runtime : Runtime) (y m d : ℕ)
    → y ≤ 292000000000
    → go_date runtime (pos y) m d ≡ time_date (pos y) m d
unfolding go_date
go_date_near runtime y m d h = ground arith

clamp_day_lem :
    (runtime : Runtime) (y m d : ℕ)
    → y ≤ 292000000000
    → 1 ≤ m
    → m ≤ 12
    → 1 ≤ d
    → clamp_day runtime (pos y) m d
      ≡ record { year = pos y; month = m; day = lesser d (days_in (pos y) m) }
unfolding clamp_day
clamp_day_lem runtime y m d near lo hi hd =
    rw (go_date_near runtime y (m + 1) 0 near, day_zero (pos y) m lo)
      (go_date_near runtime y m _ near
        ∙ time_date_plain (pos y) m _ hi
            (lesser_pos d (days_in (pos y) m) hd (omega (arith, days_in_pos (pos y) m))))

wrap_int-pos : (n : ℕ) → n < 2 ^ 63 → wrap_int (pos n) ≡ pos n
unfolding wrap_int
wrap_int-pos n h = ground arith

month_after_add : (m q : ℕ) → pos m +ℤ pos q ≡ pos (m + q)
unfolding ◌+ℤ◌
month_after_add m q = ground arith

sub_one : (m q : ℕ) → 1 ≤ m → pos (m + q) -ℤ pos 1 ≡ pos (m - 1 + q)
unfolding ◌-ℤ◌
sub_one m q h = ground arith

month_after :
    (m q : ℕ)
    → 1 ≤ m
    → m + q < 2 ^ 63
    → wrap_int (wrap_int (pos m +ℤ pos q) -ℤ pos 1) ≡ pos (m - 1 + q)
month_after m q h l =
    rw (month_after_add m q, wrap_int-pos (m + q) l, sub_one m q h)
      (wrap_int-pos (m - 1 + q) (omega arith))

pos-+ℤ : (a b : ℕ) → pos a +ℤ pos b ≡ pos (a + b)
unfolding ◌+ℤ◌
pos-+ℤ a b = ground arith

quot-pos : (a k : ℕ) → quot (pos a) k ≡ pos (a / k)
unfolding quot
quot-pos a k = refl

rem-pos : (a k : ℕ) → rem (pos a) k ≡ pos (a % k)
unfolding rem
rem-pos a k = refl

not_below_one : (a : ℕ) → ltb_ℤ (pos (a + 1)) (pos 1) ≡ false
not_below_one a = ground arith

forward :
    (runtime : Runtime) (y m d n : ℕ)
    → 1 ≤ m
    → m + n < 2 ^ 63
    → add_months runtime (record { year = pos y; month = m; day = d }) (pos n)
      ≡ clamp_day runtime (pos (y + (m - 1 + n) / 12)) ((m - 1 + n) % 12 + 1) d
unfolding add_months
forward runtime y m d n h l = rw (
  month_after m n h l,
  quot-pos (m - 1 + n) 12,
  rem-pos (m - 1 + n) 12,
  pos-+ℤ y,
  pos-+ℤ ((m - 1 + n) % 12),
  not_below_one ((m - 1 + n) % 12),
)

later_index :
    (k n : ℕ)
    → (k / 12 + (k % 12 + 1 - 1 + n) / 12 ≡ (k + n) / 12)
      × ((k % 12 + 1 - 1 + n) % 12 ≡ (k + n) % 12)
later_index k n = omega arith

-- Up to the year 291 666 666 666, for a day from 1 on of a month from the year 0 on, `addMonths` by `n` months moves the index of
-- the month by `n` and keeps the day, or takes the last day of a month that is too short for it.
pub add_months-date_at :
    (runtime : Runtime) (k d n : ℕ)
    → k + n ≤ 3500000000000
    → 1 ≤ d
    → add_months runtime (date_at k d) (pos n) ≡ date_at (k + n) (lesser d (month_length (k + n)))
unfolding month_length
add_months-date_at runtime k d n near hd =
    let (p, q) = later_index k n in
    forward runtime (k / 12) (k % 12 + 1) d n (omega arith) (omega arith)
    ∙ rw (p, q)
        (clamp_day_lem runtime ((k + n) / 12) ((k + n) % 12 + 1) d (omega arith) (omega arith)
          (omega arith) hd)

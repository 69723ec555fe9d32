-- ===== src/Calendar/Order.antt =====
-- Civil dates of the years from 0 on in the order of time: first by month, then by day.
use gnodi.Base.{ℕ, ◌+◌, ◌-◌, ◌*◌, ◌/◌, ◌%◌, ◌≤◌, ◌<◌, ◌≡◌, ◌↔◌, true}
use gnodi.Base.{◌∙◌, arith, ◌⊎◌, ap}
use gnodi.Base.Int.{ℤ, pos, negsuc, pos_part, ◌+ℤ◌, ltb_ℤ, ◌≤ℤ◌}
use gnodi.Calendar.{Date, IsDate}
use gnodi.Calendar.{days_before_year, day_number, before}
use gnodi.Calendar.Months.{month_length, month_number, month_number_lt}

-- A civil date of a year from 0 to 10 ^ 11.
pub record IsModern (t : Date) : Type 0 where
  pub is_date : IsDate t
  pub from_year : pos 0 ≤ℤ t.year
  pub to_year : t.year ≤ℤ pos 100000000000

abbrev pub month_index : Date → ℕ
month_index t = pos_part t.year * 12 + (t.month - 1)

-- The day of the month `k`.
abbrev pub date_at : ℕ → ℕ → Date
date_at k d = record { year = pos (k / 12); month = k % 12 + 1; day = d }

abbrev pub number_at : ℕ → ℕ → ℕ
number_at k d = month_number k + (d - 1)

pub day_number-date_at : (k d : ℕ) → 1 ≤ d → day_number (date_at k d) ≡ pos (number_at k d)
unfolding day_number month_number days_before_year ◌+ℤ◌
day_number-date_at k d h = ground arith

index_split :
    (y m : ℕ) → 1 ≤ m → m ≤ 12 → ((y * 12 + (m - 1)) / 12 ≡ y) × ((y * 12 + (m - 1)) % 12 + 1 ≡ m)
index_split y m h k = omega arith

date_at_of_parts :
    (y m d : ℕ)
    → 1 ≤ m
    → m ≤ 12
    → record { year = pos y; month = m; day = d } ≡ date_at (y * 12 + (m - 1)) d
date_at_of_parts y m d h k = let (p, q) = index_split y m h k in rw (p, q)

eq_date_at :
    (y : ℤ) (m d : ℕ)
    → pos 0 ≤ℤ y
    → 1 ≤ m
    → m ≤ 12
    → record { year = y; month = m; day = d } ≡ date_at (pos_part y * 12 + (m - 1)) d
eq_date_at (pos y) m d p h k = date_at_of_parts y m d h k
eq_date_at (negsuc y) m d p h k = absurd (omega arith)

month_index_range :
    (y : ℤ) (m : ℕ)
    → pos 0 ≤ℤ y
    → y ≤ℤ pos 100000000000
    → m ≤ 12
    → pos_part y * 12 + (m - 1) ≤ 1200000000011
month_index_range y m h k l = ground arith

pub month_index-le : (t : Date) → IsModern t → month_index t ≤ 1200000000011
month_index-le t h = month_index_range t.year t.month h.from_year h.to_year h.is_date.to_month

-- Every modern date is the day of its month.
pub eq-date_at : (t : Date) → IsModern t → t ≡ date_at (month_index t) t.day
eq-date_at t h = eq_date_at t.year t.month t.day h.from_year h.is_date.from_month h.is_date.to_month

pub day_number_lem : (t : Date) → IsModern t → day_number t ≡ pos (number_at (month_index t) t.day)
day_number_lem t h =
    ap day_number (eq-date_at t h) ∙ day_number-date_at (month_index t) t.day h.is_date.from_day

-- Day `c` of month `j` comes before day `d` of month `k`.
abbrev pub Earlier : ℕ → ℕ → ℕ → ℕ → Type 0
Earlier j c k d = (j < k) ⊎ ((j ≡ k) × (c < d))

number_at_lt :
    (j c k d : ℕ)
    → 1 ≤ c
    → c ≤ month_length j
    → 1 ≤ d
    → d ≤ month_length k
    → (number_at j c < number_at k d) ↔ Earlier j c k d
number_at_lt j c k d hc hj hd hk = (there, back)
  where
    there : number_at j c < number_at k d → Earlier j c k d
    there h = ground (arith, month_number_lt k j)

    back : Earlier j c k d → number_at j c < number_at k d
    back h = ground (arith, month_number_lt j k)

ltb_pos : (a b : ℕ) → (ltb_ℤ (pos a) (pos b) ≡ true) ↔ (a < b)
ltb_pos a b = ground arith

before-date_at :
    (j c k d : ℕ)
    → 1 ≤ c
    → 1 ≤ d
    → before (date_at j c) (date_at k d) ≡ ltb_ℤ (pos (number_at j c)) (pos (number_at k d))
unfolding before
before-date_at j c k d hc hd = rw (day_number-date_at j c hc, day_number-date_at k d hd)

-- `Before` on two dates that are given by month and day.
pub before_iff :
    (j c k d : ℕ)
    → 1 ≤ c
    → c ≤ month_length j
    → 1 ≤ d
    → d ≤ month_length k
    → (before (date_at j c) (date_at k d) ≡ true) ↔ Earlier j c k d
before_iff j c k d hc hj hd hk = rw (before-date_at j c k d hc hd) (
  (λ e. (number_at_lt j c k d hc hj hd hk).0 ((ltb_pos _ _).0 e)),
  (λ e. (ltb_pos _ _).1 ((number_at_lt j c k d hc hj hd hk).1 e)),
)

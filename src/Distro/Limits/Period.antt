-- ===== src/Distro/Limits/Period.antt =====
-- The days of a halving period, counted by `addMonths` from the start date.
use gnodi.Base.{ℕ, zero, suc, ◌+◌, ◌-◌, ◌*◌, ◌/◌, ◌%◌, ◌^◌, ◌≤◌, ◌<◌, ◌≡◌, true, false}
use gnodi.Base.{refl, ◌∙◌, ltb, ◌==◌, arith, ◌⊎◌, inl, inr, ap}
use gnodi.Base.Int.{ℤ, pos, ◌-ℤ◌}
use gnodi.Calendar.{Date, Runtime, time_date, day_number, sub_days, days_in, days_in_month}
use gnodi.Calendar.Months.{month_length, month_number, month_number-suc}
use gnodi.Calendar.Order.{
  date_at, number_at, IsModern, month_index, month_index-le, eq-date_at, day_number-date_at,
}
use native.Mathlib.Numerals.{add-one}
use gnodi.Distro.Months.{add_months}
use gnodi.Distro.Months.AddMonths.{add_months-date_at}
use gnodi.Distro.Months.Numbers.{
  number, clamped, number_after, number_after_gap, day_number-add_months, day_number-number,
}
use gnodi.Distro.Limits.{to_int, previous_day, unsigned_days, days_in_period, days_elapsed}

pub to_int-pos : (n : ℕ) → n < 2 ^ 63 → to_int n ≡ pos n
unfolding to_int
to_int-pos n h = ground arith

year_back : (y : ℕ) → pos (y + 1) -ℤ pos 1 ≡ pos y
unfolding ◌-ℤ◌
year_back y = ground arith

december : (y : ℤ) → days_in y 12 ≡ 31
unfolding days_in days_in_month
december y = refl

first_of_month :
    (k : ℕ)
    → ((suc k / 12 ≡ k / 12 + 1) × (suc k % 12 ≡ 0) × (k % 12 ≡ 11))
      ⊎ ((suc k / 12 ≡ k / 12) × (suc k % 12 ≡ suc (k % 12)))
first_of_month k = omega arith

not_january : (m : ℕ) → (suc m + 1 == 1) ≡ false
not_january m = ground arith

drop_one : (m : ℕ) → suc m + 1 - 1 ≡ m + 1
drop_one m = omega arith

-- The day before the first of a month is the last of the month before.
previous_first : (k : ℕ) → previous_day (date_at (suc k) 1) ≡ date_at k (month_length k)
unfolding previous_day time_date month_length
previous_first k = elim (first_of_month k) [
  | inl (q, r, e) ↦ rw (q, r, e, year_back (k / 12), december (pos (k / 12)))
  | inr (q, r) ↦ rw (q, r, not_january (k % 12), drop_one (k % 12))
]

before_month_13 : (m : ℕ) → (m % 12 + 1 == 13) ≡ false
before_month_13 m = ground arith

previous_later : (k d : ℕ) → previous_day (date_at k (suc (suc d))) ≡ date_at k (suc d)
unfolding previous_day time_date
previous_later k d = rw (positive d, before_month_13 k, less d)
  where
    positive : (d : ℕ) → ltb 0 (suc (suc d) - 1) ≡ true
    positive d = ground arith

    less : (d : ℕ) → suc (suc d) - 1 ≡ suc d
    less d = omega arith

month_length_pos : (k : ℕ) → 1 ≤ month_length k
unfolding month_length days_in days_in_month
month_length_pos k = ground arith

-- `AddDate(0, 0, -1)` is one day less.
previous_number :
    (k d : ℕ) → 1 ≤ k → 1 ≤ d → day_number (previous_day (date_at k d)) ≡ pos (number_at k d - 1)
previous_number zero d h l = elim h [ ]
previous_number (suc k) zero h l = elim l [ ]
previous_number (suc k) (suc zero) h l = rw (previous_first k) (
    day_number-date_at k (month_length k) (month_length_pos k)
    ∙ ap pos (omega (arith, month_number-suc k, month_length_pos k, ap month_number (add-one k))))
previous_number (suc k) (suc (suc d)) h l =
    rw (previous_later (suc k) d)
      (day_number-date_at (suc k) (suc d) (omega arith) ∙ ap pos (omega arith))

sub_days_forward :
    (s t : Date) {a b : ℕ}
    → day_number s ≡ pos a
    → day_number t ≡ pos b
    → b ≤ a
    → a ≤ b + 106751
    → sub_days s t ≡ pos (a - b)
unfolding sub_days ◌-ℤ◌
sub_days_forward s t p q h l = rw (p, q) (ground arith)

-- The day before the date that `addMonths` reaches.
previous-add_months :
    (runtime : Runtime) (t : Date) (n : ℕ)
    → IsModern t
    → 1 ≤ n
    → n ≤ 2 ^ 40
    → day_number (previous_day (add_months runtime t (pos n))) ≡ pos (number_after t n - 1)
unfolding number_after
previous-add_months runtime t n h l near =
    ap (λ u. day_number (previous_day (add_months runtime u (pos n)))) (eq-date_at t h)
    ∙ ap (λ u. day_number (previous_day u))
        (add_months-date_at runtime (month_index t) t.day n (omega (arith, month_index-le t h))
          h.is_date.from_day)
    ∙ previous_number _ _ (omega arith) (clamped_pos t.day (month_index t + n) h.is_date.from_day)
  where
    clamped_pos : (c k : ℕ) → 1 ≤ c → 1 ≤ clamped c k
    clamped_pos c k p = ground (arith, month_length_pos k)

-- A period of `M` months that begins `a` months after the start.
module _ (runtime : Runtime) (start : Date) (h : IsModern start) (a M : ℕ) where
  abbrev pub first_day : Date
  first_day = add_months runtime start (pos a)

  abbrev pub last_day : Date
  last_day = previous_day (add_months runtime start (pos (a + M)))

  -- As many days as lie between its start and the next one.
  abbrev pub period_days : ℕ
  period_days = number_after start (a + M) - number_after start a

  pub period_days_range : 1 ≤ M → (1 ≤ period_days) × (period_days ≤ 31 * M)
  period_days_range l = omega (arith, number_after_gap start a M h.is_date.from_day)

  pub days_in_period_lem :
      1 ≤ M → M ≤ 3443 → a ≤ 2 ^ 39 → days_in_period runtime first_day last_day ≡ period_days
  unfolding days_in_period unsigned_days
  days_in_period_lem l k s =
      let gap = number_after_gap start a M h.is_date.from_day in
      rw
        (sub_days_forward last_day first_day
          (previous-add_months runtime start (a + M) h (omega arith) (omega arith))
          (day_number-add_months runtime start a h (omega arith)) (omega (arith, gap))
          (omega (arith, gap)))
        (omega (arith, gap))

  -- In the period the days that have passed are counted from its first day.
  pub days_elapsed_lem :
      (target : Date)
      → IsModern target
      → 1 ≤ M
      → M ≤ 3443
      → a ≤ 2 ^ 39
      → number_after start a ≤ number target
      → number target < number_after start (a + M)
      → days_elapsed runtime first_day target period_days ≡ number target - number_after start a
  unfolding days_elapsed unsigned_days
  days_elapsed_lem target ht l k s lo hi =
      let gap = number_after_gap start a M h.is_date.from_day in
      rw
        (sub_days_forward target first_day (day_number-number target ht)
          (day_number-add_months runtime start a h (omega arith)) lo (omega (arith, gap)))
        (ground arith)

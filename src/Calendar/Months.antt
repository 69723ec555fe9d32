-- ===== src/Calendar/Months.antt =====
-- Months counted from January of the year 0 on, and the day on which each begins.
use gnodi.Base.{ℕ, zero, suc, ◌+◌, ◌-◌, ◌/◌, ◌%◌, ◌≤◌, ◌<◌, ◌≡◌, Bool, true, false}
use gnodi.Base.{refl, ap, if◌then◌else◌, arith, ◌⊎◌, inl, inr}
use gnodi.Base.Int.{pos}
use gnodi.Calendar.{is_leap, days_in_month, days_in, year_start, month_start}

-- The number of days of the month with the index `k`.
unfoldable pub month_length : ℕ → ℕ
month_length k = days_in (pos (k / 12)) (k % 12 + 1)

-- The day on which it begins.
unfoldable pub month_number : ℕ → ℕ
month_number k = year_start (k / 12) + month_start (is_leap (pos (k / 12))) (k % 12 + 1)

year_start-suc :
    (y : ℕ) → year_start (y + 1) ≡ year_start y + (if is_leap (pos y) then 366 else 365)
unfolding year_start is_leap
year_start-suc y = ground arith

month_start-suc :
    (leap : Bool) (m : ℕ)
    → month_start leap (m + 1 + 1) ≡ month_start leap (m + 1) + days_in_month leap (m + 1)
unfolding month_start
month_start-suc leap m = ground arith

month_start-december :
    (leap : Bool) → month_start leap 12 + days_in_month leap 12 ≡ (if leap then 366 else 365)
unfolding month_start days_in_month
month_start-december true = refl
month_start-december false = refl

month_start-january : (leap : Bool) → month_start leap 1 ≡ 0
unfolding month_start
month_start-january leap = refl

next_month :
    (k : ℕ)
    → ((k % 12 ≡ 11) × ((k + 1) / 12 ≡ k / 12 + 1) × ((k + 1) % 12 ≡ 0))
      ⊎ (((k + 1) / 12 ≡ k / 12) × ((k + 1) % 12 ≡ k % 12 + 1))
next_month k = omega arith

month_length_lem : (k : ℕ) → month_length k ≡ days_in_month (is_leap (pos (k / 12))) (k % 12 + 1)
unfolding month_length days_in
month_length_lem k = refl

-- Each month begins where the one before ends.
pub month_number-suc : (k : ℕ) → month_number (k + 1) ≡ month_number k + month_length k
unfolding month_number
month_number-suc k = elim (next_month k) [
  | inl (e, q, r) ↦
      rw (q, r, month_length_lem k, e)
        (omega (
          arith,
          year_start-suc (k / 12),
          month_start-december (is_leap (pos (k / 12))),
          month_start-january (is_leap (pos (k / 12 + 1))),
        ))
  | inr (q, r) ↦
      rw (q, r, month_length_lem k)
        (omega (arith, month_start-suc (is_leap (pos (k / 12))) (k % 12)))
]

at_start : (k : ℕ) → k + 1 + 0 ≡ k + 1
at_start k = omega arith

one_later : (k n : ℕ) → k + 1 + suc n ≡ k + 1 + n + 1
one_later k n = omega arith

up_to : (j k : ℕ) → j < k → j + 1 + (k - (j + 1)) ≡ k
up_to j k h = omega arith

-- Months follow one another without overlap.
month_number_gap : (n k : ℕ) → month_number k + month_length k ≤ month_number (k + 1 + n)
month_number_gap zero k = omega (arith, month_number-suc k, ap month_number (at_start k))
month_number_gap (suc n) k =
    omega
      (arith, month_number_gap n k, month_number-suc (k + 1 + n), ap month_number (one_later k n))

pub month_number_lt : (j k : ℕ) → j < k → month_number j + month_length j ≤ month_number k
month_number_lt j k h =
    omega (arith, month_number_gap (k - (j + 1)) j, ap month_number (up_to j k h))

-- ===== src/Distro/Months/Numbers.antt =====
-- The day on which `addMonths` arrives, as a number that grows with the months.
use gnodi.Base.{ℕ, zero, suc, ◌+◌, ◌*◌, ◌^◌, ◌≤◌, ◌<◌, ◌≡◌}
use gnodi.Base.{◌∙◌, ltb, arith, ap}
use gnodi.Base.Int.{pos}
use gnodi.Calendar.{Date, Runtime, days_in, days_in_month, before, day_number}
use gnodi.Calendar.Months.{month_length, month_number-suc}
use gnodi.Calendar.Order.{
  number_at, IsModern, month_index, month_index-le, eq-date_at, day_number-date_at,
}
use gnodi.Calendar.Order.{day_number_lem}
use native.Mathlib.Nat.{add-zero}
use gnodi.Distro.Months.{add_months}
use gnodi.Distro.Months.AddMonths.{lesser, add_months-date_at}

abbrev pub clamped : ℕ → ℕ → ℕ
clamped c k = lesser c (month_length k)

-- The day number of `t`, and of `t` and `n` months.
unfoldable pub number : Date → ℕ
number t = number_at (month_index t) t.day

unfoldable pub number_after : Date → ℕ → ℕ
number_after t n = let k = month_index t + n in number_at k (clamped t.day k)

month_length_range : (k : ℕ) → (28 ≤ month_length k) × (month_length k ≤ 31)
unfolding month_length days_in days_in_month
month_length_range k = ground arith

number_at-next :
    (c k : ℕ)
    → 1 ≤ c
    → (number_at k (clamped c k) < number_at (k + 1) (clamped c (k + 1)))
      × (number_at (k + 1) (clamped c (k + 1)) ≤ number_at k (clamped c k) + 31)
number_at-next c k h =
    ground (arith, month_number-suc k, month_length_range k, month_length_range (k + 1))

-- One more month is 1 to 31 days later.
pub number_after-suc :
    (t : Date) (n : ℕ)
    → 1 ≤ t.day
    → (number_after t n < number_after t (n + 1)) × (number_after t (n + 1) ≤ number_after t n + 31)
unfolding number_after
number_after-suc t n h = rw (one_on (month_index t) n) (number_at-next t.day (month_index t + n) h)
  where
    one_on : (j n : ℕ) → j + (n + 1) ≡ j + n + 1
    one_on j n = omega arith

-- `m` months more are at most 31 times as many days later, and at least one if `m` is not 0.
pub number_after_gap :
    (t : Date) (n m : ℕ)
    → 1 ≤ t.day
    → (number_after t n + m ≤ number_after t (n + m))
      × (number_after t (n + m) ≤ number_after t n + 31 * m)
number_after_gap t n zero h = rw (add-zero n) (omega arith)
number_after_gap t n (suc m) h =
    rw (one_more n m) (omega (arith, number_after_gap t n m h, number_after-suc t (n + m) h))
  where
    one_more : (n m : ℕ) → n + suc m ≡ n + m + 1
    one_more n m = omega arith

pub day_number-add_months :
    (runtime : Runtime) (t : Date) (n : ℕ)
    → IsModern t
    → n ≤ 2 ^ 40
    → day_number (add_months runtime t (pos n)) ≡ pos (number_after t n)
unfolding number_after
day_number-add_months runtime t n h l =
    ap (λ u. day_number (add_months runtime u (pos n))) (eq-date_at t h)
    ∙ ap day_number (
        add_months-date_at runtime (month_index t) t.day n (omega (arith, month_index-le t h))
          h.is_date.from_day)
    ∙ day_number-date_at _ _ (clamped_pos t.day (month_index t + n) h.is_date.from_day)
  where
    clamped_pos : (c k : ℕ) → 1 ≤ c → 1 ≤ clamped c k
    clamped_pos c k p = ground (arith, month_length_range k)

pub day_number-number : (t : Date) → IsModern t → day_number t ≡ pos (number t)
unfolding number
day_number-number t h = day_number_lem t h

-- `Before` compares the day numbers.
pub before_number :
    (s t : Date) {a b : ℕ} → day_number s ≡ pos a → day_number t ≡ pos b → before s t ≡ ltb a b
unfolding before
before_number s t p q = rw (p, q) (ground arith)

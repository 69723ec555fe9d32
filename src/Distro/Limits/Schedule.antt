-- ===== src/Distro/Limits/Schedule.antt =====
-- The released amount against the schedule in whole numbers: exact while the products fit, never more
-- than the supply, growing from day to day, and too small once a product wraps around.
use gnodi.Base.{ℕ, ◌+◌, ◌-◌, ◌*◌, ◌/◌, ◌%◌, ◌^◌, ◌≤◌, ◌<◌, ◌≡◌, false}
use gnodi.Base.{◌∙◌, sym, arith, ap}
use gnodi.Base.Int.{ℤ, pos, pos_part, ◌≤ℤ◌}
use gnodi.Base.Nat.{div-lt-div}
use gnodi.Calendar.{Date, Runtime, exact, before}
use gnodi.Calendar.Order.{IsModern}
use gnodi.Calendar.Text.RoundTrip.{IsCommon}
use gnodi.Distro.Params.{Params}
use gnodi.Distro.Outcome.{ok, ok_inj}
use native.Mathlib.Nat.{mod-eq_of_lt, mul-le-mul}
use native.Mathlib.Decide.{dec_le}
use gnodi.Distro.Months.{months_between}
use gnodi.Distro.Months.Between.{Counts, months_between-Counts, months_between-le}
use gnodi.Distro.Months.Numbers.{
  number, number_after, number_after_gap, day_number-number, before_number,
}
use gnodi.Distro.Halving.Bounds.{IsU64, later_limit-le}
use gnodi.Distro.Limits.{limit_at}
use gnodi.Distro.Limits.Plan.{scheduled, scheduled_mono}
use gnodi.Distro.Limits.Total.{distributable, distributable-le, total_lem, in_period, in_month}

below : (y : ℤ) → y ≤ℤ pos 9999 → y ≤ℤ pos 100000000000
below y h = omega (arith, h)

pub IsCommon-IsModern : {t : Date} → IsCommon t → IsModern t
IsCommon-IsModern h = record {
  is_date = h.is_date;
  from_year = h.from_year;
  to_year = below _ h.to_year;
}

-- What a call of `validateMintingLimits` needs to come to a sum: dates that were parsed, the start not
-- after the target, and halving periods of 1 to 3443 months (286 years).
pub record IsRun (params : Params) (start target : Date) : Type 0 where
  pub start_date : IsCommon start
  pub target_date : IsCommon target
  pub in_order : before target start ≡ false
  pub some_months : 1 ≤ params.months_in_halving_period
  pub few_months : params.months_in_halving_period ≤ 3443
  pub supply : IsU64 params.max_supply

common_year : (y : ℤ) → pos 0 ≤ℤ y → y ≤ℤ pos 9999 → pos_part y ≤ 9999
common_year y h k = ground arith

-- The product of the first period's limit and the days of any period is a uint64.
abbrev pub Fits : Params → Type 0
Fits params = params.max_supply / 2 * (31 * params.months_in_halving_period) < 2 ^ 64

module _ {params : Params} {start target : Date} (r : IsRun params start target) where
  IsModern-start : IsModern start
  IsModern-start = IsCommon-IsModern r.start_date

  IsModern-target : IsModern target
  IsModern-target = IsCommon-IsModern r.target_date

  counted : (n : ℕ) × Counts exact start target n
  counted = months_between-Counts exact start target IsModern-start IsModern-target r.in_order

  pub months : ℕ
  months = counted.0

  abbrev counts : Counts exact start target months
  unfolding months
  counts = counted.1

  months-lt : months < 2 ^ 32
  months-lt = omega (
    arith,
    months_between-le start target IsModern-start IsModern-target months r.in_order counts.0,
    r.target_date.is_date.to_month,
    common_year target.year r.target_date.from_year r.target_date.to_year,
  )

  module _ (runtime : Runtime) where
    total : ℕ
    total =
        distributable runtime params start target months IsModern-start IsModern-target counts
          months-lt r.some_months r.few_months

    limit_at-total : limit_at runtime params start target (months_between start target) ≡ ok total
    unfolding limit_at total
    limit_at-total = rw counts.0 (
        total_lem runtime params start target months IsModern-start IsModern-target counts months-lt
          r.some_months r.few_months r.supply)

    total-le : total ≤ params.max_supply
    unfolding total
    total-le =
        distributable-le runtime params start target months IsModern-start IsModern-target counts
          months-lt r.some_months r.few_months

    target_in_period :
        (number_after start
            (months / params.months_in_halving_period * params.months_in_halving_period)
          ≤ number target)
        × (number target
            < number_after start (
                months / params.months_in_halving_period * params.months_in_halving_period
                + params.months_in_halving_period))
    target_in_period =
        in_period runtime params start target months IsModern-start IsModern-target counts months-lt
          r.some_months r.few_months

    product-Fits :
        Fits params
        → params.max_supply
            / 2 ^ (months / params.months_in_halving_period + 1)
            * (number target
                - number_after start
                    (months / params.months_in_halving_period * params.months_in_halving_period))
          < 2 ^ 64
    product-Fits f =
        let M = params.months_in_halving_period in
        let a = months / M * M in
        let e = number target - number_after start a in
        let e-le : e ≤ 31 * M =
          omega
            (arith, target_in_period, number_after_gap start a M r.start_date.is_date.from_day) in
        omega (arith, mul-le-mul (later_limit-le params.max_supply (months / M)) e-le)

    total_exact :
        Fits params
        → total ≡ scheduled params.max_supply params.months_in_halving_period start target months
    unfolding total scheduled
    total_exact f = rw (mod-eq_of_lt (product-Fits f))

    total_wrapped :
        2 ^ 64
          ≤ params.max_supply
            / 2 ^ (months / params.months_in_halving_period + 1)
            * (number target
                - number_after start
                    (months / params.months_in_halving_period * params.months_in_halving_period))
        → total < scheduled params.max_supply params.months_in_halving_period start target months
    unfolding total scheduled
    total_wrapped big =
        let M = params.months_in_halving_period in
        let a = months / M * M in
        let gap = number_after_gap start a M r.start_date.is_date.from_day in
        let D = number_after start (a + M) - number_after start a in
        let x = params.max_supply / 2 ^ (months / M + 1) * (number target - number_after start a) in
        let room : x % 2 ^ 64 + D ≤ x = omega (arith, big, gap, r.few_months) in
        omega (arith, div-lt-div D (x % 2 ^ 64) x (omega (arith, gap, r.some_months)) room)

  pos_inj : {a b : ℕ} → pos a ≡ pos b → a ≡ b
  pos_inj h = ap pos_part h

  -- The number of months that the schedule is read at.
  counted_months : (n : ℕ) → months_between start target ≡ pos n → n ≡ months
  counted_months n h = pos_inj (sym h ∙ counts.0)

  month_of_target :
      (number_after start months ≤ number target)
      × (number target < number_after start (months + 1))
  month_of_target =
      in_month exact params start target months IsModern-start IsModern-target counts months-lt
        r.some_months r.few_months

-- For a run (start not after target, years 0 to 9999, halving periods of 1 to 3443 months, a
-- uint64 supply) the sum is computed without a panic and is at most the maximum supply, also where
-- a product of the code wraps around.
pub limit_at-le :
    (runtime : Runtime) (params : Params) (start target : Date)
    → IsRun params start target
    → (total : ℕ) × (limit_at runtime params start target (months_between start target) ≡ ok total)
      × (total ≤ params.max_supply)
limit_at-le f params start target r = (total r f, limit_at-total r f, total-le r f)

-- For a run (start not after target, years 0 to 9999, halving periods of 1 to 3443 months, a
-- uint64 supply) whose products fit in a uint64, the sum that `validateMintingLimits` computes is
-- the schedule of the target date in whole numbers: the past periods in full, and the current one
-- by its days, rounded down.
pub limit_at-scheduled :
    (runtime : Runtime) (params : Params) (start target : Date) (n : ℕ)
    → IsRun params start target
    → Fits params
    → months_between start target ≡ pos n
    → limit_at runtime params start target (months_between start target)
      ≡ ok (scheduled params.max_supply params.months_in_halving_period start target n)
limit_at-scheduled f params start target n r fits e =
    rw (counted_months r n e) (limit_at-total r f ∙ ap ok (total_exact r f fits))

same_order : (s t : Date) → IsModern s → IsModern t → before t s ≡ false → number s ≤ number t
same_order s t hs ht e =
    ground (arith, before_number t s (day_number-number t ht) (day_number-number s hs))

grows : (t : Date) (a b : ℕ) → 1 ≤ t.day → a ≤ b → number_after t a ≤ number_after t b
grows t a b l h = omega (arith, number_after_gap t a (b - a) l, ap (number_after t) (there a b h))
  where
    there : (a b : ℕ) → a ≤ b → a + (b - a) ≡ b
    there a b h = omega arith

months_order :
    {params : Params} {start s t : Date} (r : IsRun params start s) (q : IsRun params start t)
    → number s ≤ number t
    → months r ≤ months q
months_order {start = start} r q l = elim (dec_le (months r) (months q)) [
  | yes h ↦ h
  | no h ↦ absurd (
      omega (
        arith,
        month_of_target r,
        month_of_target q,
        grows start (months q + 1) (months r) r.start_date.is_date.from_day (omega arith),
      ))
]

-- For two runs from one start date whose products fit in a uint64, the sum at a target that is not
-- earlier is at least the sum at the other.
pub limit_at_mono :
    (runtime : Runtime) (params : Params) (start s t : Date) (a b : ℕ)
    → IsRun params start s
    → IsRun params start t
    → Fits params
    → before t s ≡ false
    → limit_at runtime params start s (months_between start s) ≡ ok a
    → limit_at runtime params start t (months_between start t) ≡ ok b
    → a ≤ b
limit_at_mono f params start s t a b r q fits e ha hb =
    let l = same_order s t (IsModern-target r) (IsModern-target q) e in
    rw
      (
        ok_inj (sym ha ∙ limit_at-total r f) ∙ total_exact r f fits,
        ok_inj (sym hb ∙ limit_at-total q f) ∙ total_exact q f fits,
      )
      (scheduled_mono params.max_supply params.months_in_halving_period start s t (months r)
        (months q) r.some_months (months_order r q l) l (target_in_period r f).1)

-- For a run whose limit of the current period times its elapsed days is 2 ^ 64 or more, the sum is
-- computed, and it is strictly less than the schedule of that day.
pub limit_at_wrapped :
    (runtime : Runtime) (params : Params) (start target : Date) (n : ℕ)
    → IsRun params start target
    → months_between start target ≡ pos n
    → 2 ^ 64
      ≤ params.max_supply
        / 2 ^ (n / params.months_in_halving_period + 1)
        * (number target
            - number_after start
                (n / params.months_in_halving_period * params.months_in_halving_period))
    → (total : ℕ) × (limit_at runtime params start target (months_between start target) ≡ ok total)
      × (total < scheduled params.max_supply params.months_in_halving_period start target n)
limit_at_wrapped f params start target n r e big = (
  total r f,
  limit_at-total r f,
  rw (counted_months r n e) (total_wrapped r f (rw (counted_months r n e) at big)),
)

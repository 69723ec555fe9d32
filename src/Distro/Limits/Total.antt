-- ===== src/Distro/Limits/Total.antt =====
-- What `totalDistributable` comes to, and that it never exceeds the supply.
use gnodi.Base.{ℕ, ◌+◌, ◌-◌, ◌*◌, ◌/◌, ◌%◌, ◌^◌, ◌≤◌, ◌<◌, ◌≡◌, true}
use gnodi.Base.{◌∙◌, ltb, arith, ap}
use gnodi.Base.Int.{pos}
use gnodi.Base.Partial.{checked_div}
use gnodi.Calendar.{Date, Runtime, exact}
use gnodi.Calendar.Order.{IsModern}
use gnodi.Distro.Params.{Params}
use gnodi.Distro.Outcome.{ok}
use native.Mathlib.Nat.{
  mod-eq_of_lt, div-add-mod, mod-lt, mod-le, mul-le-mul_left, mul_comm, add_comm, div-le_self,
  div-le_of_le-mul,
}
use gnodi.Distro.Months.{add_months}
use gnodi.Distro.Months.Between.{Counts}
use gnodi.Distro.Months.Numbers.{
  number, number_after, number_after_gap, day_number-add_months, day_number-number, before_number,
}
use gnodi.Distro.Halving.Bounds.{
  IsU64, released, released-le, released-suc, halving_period_limit_lem, add_periods_lem,
}
use gnodi.Distro.Limits.{previous_day, period_start, period_end}
use gnodi.Distro.Limits.{
  current_halving_period, current_period_amount, period_amount, total_distributable,
}
use gnodi.Distro.Limits.Period.{
  to_int-pos, first_day, last_day, period_days_range, days_in_period_lem, days_elapsed_lem,
}

-- The months before the period in which the month `n` lies.
abbrev pub months_before : ℕ → ℕ → ℕ
months_before n M = n / M * M

months_before_range : (n M : ℕ) → 1 ≤ M → (months_before n M ≤ n) × (n < months_before n M + M)
months_before_range n M h = omega (arith, div-add-mod n M, mod-lt n h)

current_lem : (n M : ℕ) → 1 ≤ M → n < 2 ^ 32 → current_halving_period n M ≡ ok (1 + n / M)
unfolding current_halving_period checked_div
current_lem n M h l = ground (arith, div-le_self n M)

amount_lem :
    (limit elapsed days : ℕ)
    → 1 ≤ days
    → current_period_amount limit elapsed days ≡ ok (limit * elapsed % 2 ^ 64 / days)
unfolding current_period_amount checked_div
amount_lem limit elapsed days h = ground arith

period_start_lem :
    (runtime : Runtime) (start : Date) (M k : ℕ)
    → k * M < 2 ^ 63
    → period_start runtime start M (1 + k) ≡ add_months runtime start (pos (k * M))
unfolding period_start
period_start_lem runtime start M k h = rw (back k, mod-eq_of_lt small, to_int-pos (k * M) h)
  where
    back : (k : ℕ) → 1 + k - 1 ≡ k
    back k = omega arith

    small : k * M < 2 ^ 64
    small = omega arith

next_period : (k M : ℕ) → (1 + k) * M ≡ k * M + M
next_period k M = omega arith

period_end_lem :
    (runtime : Runtime) (start : Date) (M k : ℕ)
    → k * M + M < 2 ^ 63
    → period_end runtime start M (1 + k) ≡ previous_day (add_months runtime start (pos (k * M + M)))
unfolding period_end
period_end_lem runtime start M k h =
    rw (next_period k M, mod-eq_of_lt small, to_int-pos (k * M + M) h)
  where
    small : k * M + M < 2 ^ 64
    small = omega arith

-- The part of the current period, from the first day to day `e` of `D`; the product is a uint64.
abbrev pub share : ℕ → ℕ → ℕ → ℕ → ℕ
share max_supply k e D = max_supply / 2 ^ (k + 1) * e % 2 ^ 64 / D

share-le : (a k e D : ℕ) → e ≤ D → 1 ≤ D → share a k e D ≤ a / 2 ^ (k + 1)
share-le a k e D h l =
    let part = a / 2 ^ (k + 1) in
    div-le_of_le-mul D
      (omega (arith, mod-le (part * e) (2 ^ 64), mul-le-mul_left part h, mul_comm part D))

-- The dates and numbers of a call: `n` months lie between the start and the target.
module _ (runtime : Runtime) (params : Params) (start target : Date) (n : ℕ) (hs : IsModern start)
    (ht : IsModern target) (counts : Counts exact start target n) (small : n < 2 ^ 32)
    (lo : 1 ≤ params.months_in_halving_period) (hi : params.months_in_halving_period ≤ 3443) where
  open params use {max_supply, months_in_halving_period as M}

  abbrev pub past_periods : ℕ
  past_periods = n / M

  abbrev pub first_month : ℕ
  first_month = past_periods * M

  -- The days of the current period, and those of them that have passed.
  abbrev pub length_of_period : ℕ
  length_of_period = number_after start (first_month + M) - number_after start first_month

  abbrev pub passed_days : ℕ
  passed_days = number target - number_after start first_month

  pub in_month :
      (number_after start n ≤ number target) × (number target < number_after start (n + 1))
  in_month = (not_later, earlier)
    where
      not_later : number_after start n ≤ number target
      not_later = ground (
        arith,
        before_number target (add_months exact start (pos n)) (day_number-number target ht)
            (day_number-add_months exact start n hs (omega arith)),
      )

      earlier : number target < number_after start (n + 1)
      earlier = ground (
        arith,
        before_number target (add_months exact start (pos (n + 1))) (day_number-number target ht)
            (day_number-add_months exact start (n + 1) hs (omega arith)),
      )

  grows : (a b : ℕ) → a ≤ b → number_after start a ≤ number_after start b
  grows a b h = omega (
    arith,
    number_after_gap start a (b - a) hs.is_date.from_day,
    ap (number_after start) (there a b h),
  )
    where
      there : (a b : ℕ) → a ≤ b → a + (b - a) ≡ b
      there a b h = omega arith

  -- The target lies in the current period.
  pub in_period :
      (number_after start first_month ≤ number target)
      × (number target < number_after start (first_month + M))
  in_period =
      let (p, q) = months_before_range n M lo in
      omega
        (arith, in_month, grows first_month n p, grows (n + 1) (first_month + M) (omega (arith, q)))

  fits : first_month + M < 2 ^ 63
  fits = let (p, _) = months_before_range n M lo in omega (arith, p)

  near : first_month ≤ 2 ^ 39
  near = let (p, _) = months_before_range n M lo in omega (arith, p)

  first_lem :
      period_start runtime start M (1 + past_periods) ≡ first_day runtime start hs first_month M
  first_lem = period_start_lem runtime start M past_periods (omega (arith, fits))

  last_lem : period_end runtime start M (1 + past_periods) ≡ last_day runtime start hs first_month M
  last_lem = period_end_lem runtime start M past_periods fits

  period_amount_lem :
      IsU64 max_supply
      → period_amount runtime params start target (1 + past_periods)
        ≡ ok (share max_supply past_periods passed_days length_of_period)
  unfolding period_amount
  period_amount_lem u =
      rw
        (
          first_lem,
          last_lem,
          days_in_period_lem runtime start hs first_month M lo hi near,
          halving_period_limit_lem max_supply (1 + past_periods) u (omega arith),
          days_elapsed_lem runtime start hs first_month M target ht lo hi near in_period.0
              in_period.1,
        )
        (amount_lem _ passed_days length_of_period
            (period_days_range runtime start hs first_month M lo).0
          ∙ ap (λ (p : ℕ). ok (max_supply / 2 ^ p * passed_days % 2 ^ 64 / length_of_period))
              (add_comm 1 past_periods))

  -- What the code has released by the target date.
  abbrev pub distributable : ℕ
  distributable =
      released max_supply past_periods + share max_supply past_periods passed_days length_of_period

  pub distributable-le : distributable ≤ max_supply
  distributable-le = omega (
    arith,
    released-le max_supply (past_periods + 1),
    released-suc max_supply past_periods,
    share-le max_supply past_periods passed_days length_of_period (omega (arith, in_period))
        (period_days_range runtime start hs first_month M lo).0,
  )

  pub total_lem :
      IsU64 max_supply → total_distributable runtime params start target n ≡ ok distributable
  unfolding total_distributable
  total_lem u =
      rw
        (
          current_lem n M lo small,
          undo past_periods,
          add_periods_lem past_periods max_supply u,
          positive past_periods,
          period_amount_lem u,
        )
        (ap ok (mod-eq_of_lt (omega (arith, distributable-le))))
    where
      undo : (k : ℕ) → 1 + k - 1 ≡ k
      undo k = omega arith

      positive : (k : ℕ) → ltb 0 (1 + k) ≡ true
      positive k = ground arith

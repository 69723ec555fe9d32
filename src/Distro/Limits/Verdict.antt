-- ===== src/Distro/Limits/Verdict.antt =====
-- When `validateMintingLimits` lets an amount through.
use gnodi.Base.{ℕ, ◌+◌, ◌≤◌, ◌≡◌, ◌↔◌, refl, arith, true, ltb, some}
use gnodi.Calendar.{Date, Runtime, before}
use gnodi.Calendar.Text.{parse_date, format_date}
use gnodi.Calendar.Text.RoundTrip.{IsCommon, parse_date-format_date}
use gnodi.Distro.Params.{Params}
use gnodi.Distro.Months.{months_between}
use gnodi.Distro.Months.Between.{months_between-before}
use gnodi.Distro.Outcome.{Outcome, ok, err, panic, or_fail, fail_if, or_fail-ok, ◌>>=◌}
use gnodi.Distro.Outcome.{invalid_start_date, invalid_target_date, target_before_start}
use gnodi.Distro.Outcome.{exceeds_distributable}
use gnodi.Distro.Limits.{limit_at, validate_minting_limits}

bind-ok :
    {A B : Type 0} (r : Outcome A) (f : A → Outcome B) {b : B}
    → (r >>= f) ≡ ok b
    → (a : A) × (r ≡ ok a) × (f a ≡ ok b)
bind-ok (ok a) f h = (a, refl, h)
bind-ok (err e) f h = cc
bind-ok panic f h = cc

module _ (runtime : Runtime) (block_time : Date) (supply amount : ℕ) (p : Params) where
  -- A start date, a target date, and a sum for them that covers the supply and the amount.
  abbrev pub Allowed : Type 0
  Allowed =
      (start : Date) × (target : Date) × (total : ℕ) × (parse_date p.distribution_start_date
        ≡ some start)
      × (parse_date (format_date block_time) ≡ some target)
      × (limit_at runtime p start target (months_between start target) ≡ ok total)
      × (supply + amount ≤ total)

  within :
      (total : ℕ)
      → fail_if (ltb total (amount + supply)) (exceeds_distributable total) ≡ ok tt
      → supply + amount ≤ total
  within total h = ground arith

  not_over :
      (total : ℕ)
      → supply + amount ≤ total
      → fail_if (ltb total (amount + supply)) (exceeds_distributable total) ≡ ok tt
  not_over total h = ground arith

  allowed-there : validate_minting_limits runtime block_time supply amount p ≡ ok tt → Allowed
  unfolding validate_minting_limits
  allowed-there h =
      let (start, e1, h1) =
        bind-ok (or_fail (parse_date p.distribution_start_date) invalid_start_date) _ h in
      let (target, e2, h2) =
        bind-ok (or_fail (parse_date (format_date block_time)) invalid_target_date) _ h1 in
      let (total, e3, h3) =
        bind-ok (limit_at runtime p start target (months_between start target)) _ h2 in
      (
        start,
        target,
        total,
        or_fail-ok (parse_date p.distribution_start_date) invalid_start_date e1,
        or_fail-ok (parse_date (format_date block_time)) invalid_target_date e2,
        e3,
        within total h3,
      )

  -- The limits let an amount through exactly if the start date and the date of the block parse,
  -- the sum for them is computed, and the supply with the amount does not exceed it.
  pub validate_minting_limits_iff :
      (validate_minting_limits runtime block_time supply amount p ≡ ok tt) ↔ Allowed
  unfolding validate_minting_limits
  validate_minting_limits_iff =
      (allowed-there, λ (start, target, total, e1, e2, e3, h). rw (e1, e2, e3) (not_over total h))

-- At a block whose date, in a year 0 to 9999, is before a start date that parses, the limits
-- refuse every amount with the error for it.
pub validate_minting_limits_early :
    (runtime : Runtime) (block_time start : Date) (supply amount : ℕ) (p : Params)
    → IsCommon block_time
    → parse_date p.distribution_start_date ≡ some start
    → before block_time start ≡ true
    → validate_minting_limits runtime block_time supply amount p ≡ err target_before_start
unfolding validate_minting_limits limit_at
validate_minting_limits_early f t start supply amount p h e b =
    rw (e, parse_date-format_date t h, months_between-before start t b)

-- ===== src/Distro/Tests/Dates.antt =====
-- The theorems about months and halving periods at concrete numbers.
use gnodi.Base.{ℕ, ◌≡◌, refl, arith, false}
use gnodi.Base.Int.{pos, ◌+ℤ◌, ◌-ℤ◌}
use gnodi.Calendar.{
  Date, Runtime, before, day_number, days_before_year, year_start, month_start, is_leap, days_in,
  days_in_month,
}
use gnodi.Calendar.Order.{IsModern}
use gnodi.Distro.Months.{add_months, months_between}
use gnodi.Distro.Months.Between.{Counts, months_between-Counts, months_between-add_months}

abbrev january : Date
january = record { year = pos 2024; month = 1; day = 31 }

abbrev february : Date
february = record { year = pos 2025; month = 2; day = 28 }

january-IsModern : IsModern january
unfolding days_in is_leap days_in_month
january-IsModern = record {
  is_date = record {
    from_month = omega arith;
    to_month = omega arith;
    from_day = omega arith;
    to_day = omega arith;
  };
  from_year = omega arith;
  to_year = omega arith;
}

february-IsModern : IsModern february
unfolding days_in is_leap days_in_month
february-IsModern = record {
  is_date = record {
    from_month = omega arith;
    to_month = omega arith;
    from_day = omega arith;
    to_day = omega arith;
  };
  from_year = omega arith;
  to_year = omega arith;
}

-- A runtime on which the dates that are too far are all one.
abbrev runtime : Runtime
runtime = record { negative_days = λ n. n; far_date = λ y m d. january }

in_order : before february january ≡ false
unfolding before day_number days_before_year year_start month_start is_leap days_in_month ◌+ℤ◌ ◌-ℤ◌
in_order = refl

months_between-Counts_example : (n : ℕ) × Counts runtime january february n
months_between-Counts_example =
    months_between-Counts runtime january february january-IsModern february-IsModern in_order

months_between-add_months_example :
    months_between january (add_months runtime january (pos 13)) ≡ pos 13
months_between-add_months_example =
    months_between-add_months runtime january 13 january-IsModern (omega arith)

-- ===== src/Distro/Tests/Chain.antt =====
-- A small chain for the tests: a store, a bank that counts one supply for each denomination, and an
-- address codec that takes every text but the empty one.
use gnodi.Base.{
  arith, ap, sym, subst, ◌∙◌, refl, ◌≡◌, ℕ, ◌+◌, ◌-◌, ◌^◌, not, ltb, Option, none, some,
  if◌then◌else◌,
}
use gnodi.Base.Int.{pos}
use gnodi.Base.Text.{Bytes, bytes, bytes_equal, bytes_equal_iff}
use gnodi.Base.Int.{◌+ℤ◌, ◌-ℤ◌, ◌*ℤ◌, quot, rem, wrap_int}
use gnodi.Base.Partial.{some_inj, checked_div}
use gnodi.Calendar.{
  go_date, Date, before, day_number, time_date, days_in, is_leap, sub_days, days_before_year,
  month_start, days_in_month, year_start,
}
use gnodi.Calendar.Text.{
  parse_date, format_date, four_digits, two_digits, skip_dash, at_end, format_year, four_wide,
  two_wide,
}
use gnodi.Distro.Months.{months_between, full_months, add_months, clamp_day}
use gnodi.Distro.Halving.{halving_period_limit, add_periods, shifted_one}
use gnodi.Distro.Outcome.{ok}
use gnodi.Distro.Limits.{
  validate_minting_limits, limit_at, total_distributable, period_amount, current_period_amount,
  days_elapsed, days_in_period, unsigned_days, period_end, period_start, current_halving_period,
  previous_day, to_int,
}
use gnodi.Distro.Params.{Params, is_empty}
use gnodi.Distro.Keeper.Env.{Keeper, IsLawful, Stored, found, CallResult, done}
use gnodi.Distro.Keeper.{MsgMint}

pub record Ledger : Type 0 where
  pub params : Stored
  pub supplies : Bytes → ℕ

abbrev pub codec : Bytes → Option Bytes
codec s = if is_empty s then none else some s

abbrev pub issue : Bytes → ℕ → Ledger → Ledger
issue d n s = record s {
  supplies = λ e. if bytes_equal e d then s.supplies e + n else s.supplies e;
}

abbrev pub toy : Keeper
toy = record {
  State = Ledger;
  Coins = Bytes × ℕ;
  authority = bytes "gov";
  string_to_bytes = codec;
  bytes_to_string = some;
  params_get = λ s. s.params;
  params_set = λ p s. (done, record s { params = found p });
  get_supply = λ d s. s.supplies d;
  int_uint64 = λ n. if ltb n (2 ^ 64) then some n else none;
  new_coins = λ d n. some (d, n);
  mint_coins = λ m c s. (done, issue c.0 c.1 s);
  send_coins = λ m a c s. (done, s);
  sdk = record { acc_address_from_bech32 = codec; validate_denom = λ d. not (is_empty d) };
  runtime = record { negative_days = λ n. 2 ^ 64 - n; far_date = time_date };
}

state_inj : {s t : Ledger} → ◌≡◌ {A = CallResult × Ledger} (done, s) (done, t) → s ≡ t
state_inj h = ap (λ r. r.1) h

small : (n m : ℕ) → (if ltb n (2 ^ 64) then some n else none) ≡ some m → m ≡ n
small n m h = ground arith

issued : (d : Bytes) (n : ℕ) (s : Ledger) → (issue d n s).supplies d ≡ s.supplies d + n
issued d n s = rw ((bytes_equal_iff d d).1 refl)

pub toy_laws : IsLawful toy
toy_laws = record {
  uint64_same = small _ _;
  mint_supply = λ m d n c s s' e h.
      ap (λ t. t.supplies d) (sym (state_inj h))
      ∙ subst (λ c. (issue c.0 c.1 s).supplies d ≡ s.supplies d + n) (some_inj e) (issued d n s);
  mint_params = λ m c s s' h. ap (λ t. t.params) (sym (state_inj h));
  send_supply = λ m a d c s s' h. ap (λ t. t.supplies d) (sym (state_inj h));
  send_params = λ m a c s s' h. ap (λ t. t.params) (sym (state_inj h));
  set_params = λ p s s' h. ap (λ t. t.params) (sym (state_inj h));
  set_supply = λ p d s s' h. ap (λ t. t.supplies d) (sym (state_inj h));
}

abbrev pub active : Params
active = record {
  minting_address = bytes "minter";
  receiving_address = bytes "treasury";
  denom = bytes "uGNOD";
  max_supply = 35_000_000_000_000_000;
  distribution_start_date = bytes "2025-07-22";
  months_in_halving_period = 12;
}

abbrev pub fresh : Ledger
fresh = record { params = found active; supplies = λ d. 0 }

abbrev pub launch : Date
launch = record { year = pos 2025; month = 7; day = 22 }

abbrev pub new_year : Date
new_year = record { year = pos 2026; month = 1; day = 10 }

abbrev pub request : MsgMint
request = record { amount = 1000; signer = bytes "minter" }

abbrev pub issued_once : Ledger
issued_once = issue (bytes "uGNOD") 1000 fresh

-- The limits of that day allow the request.
pub request_allowed : validate_minting_limits toy.runtime new_year 0 1000 active ≡ ok tt
unfolding validate_minting_limits limit_at total_distributable period_amount current_period_amount
    days_elapsed days_in_period unsigned_days period_end period_start current_halving_period
    previous_day to_int halving_period_limit add_periods shifted_one months_between full_months
    add_months clamp_day go_date wrap_int parse_date format_date before day_number time_date days_in
    is_leap sub_days four_digits two_digits skip_dash at_end format_year four_wide two_wide
    days_before_year month_start days_in_month year_start ◌+ℤ◌ ◌-ℤ◌ ◌*ℤ◌ quot rem checked_div
request_allowed = refl

-- ===== src/Calendar/Text/RoundTrip.antt =====
-- Printing a date and reading it back, and reading a date and printing it again.
use gnodi.Base.{ℕ, ◌+◌, ◌-◌, ◌*◌, ◌/◌, ◌%◌, ◌≤◌, ◌<◌, ◌≡◌, refl, true}
use gnodi.Base.{◌&&◌, leb, arith, some, [], ◌∷◌, ◌++◌, subst, lt→ltb}
use gnodi.Base.Int.{ℤ, pos, negsuc, ◌≤ℤ◌}
use gnodi.Base.Text.{Bytes}
use gnodi.Base.Partial.{>>=-eq-some, guard-eq-some, some_inj}
use mathlib.Core.List.{append-nil}
use gnodi.Calendar.{Date, IsDate, days_in, days_in_month}
use gnodi.Calendar.Text.{four_digits, two_digits, skip_dash, at_end, parse_date, is_digit}
use gnodi.Calendar.Text.{four_wide, two_wide, format_year, format_date}

four_digits-four_wide :
    (n : ℕ) (rest : Bytes) → n < 10000 → four_digits (four_wide n ++ rest) ≡ some (n, rest)
unfolding four_digits four_wide
four_digits-four_wide n rest h = ground arith

two_digits-two_wide :
    (n : ℕ) (rest : Bytes) → n < 100 → two_digits (two_wide n ++ rest) ≡ some (n, rest)
unfolding two_digits two_wide
two_digits-two_wide n rest h = ground arith

days_in-le : (y : ℤ) (m : ℕ) → days_in y m ≤ 31
unfolding days_in days_in_month
days_in-le y m = ground arith

-- A date that has a year of four digits.
pub record IsCommon (t : Date) : Type 0 where
  pub is_date : IsDate t
  pub from_year : pos 0 ≤ℤ t.year
  pub to_year : t.year ≤ℤ pos 9999

after_year : (m d : ℕ) → Bytes
after_year m d = b'-' ∷ (two_wide m ++ (b'-' ∷ two_wide d))

in_month : (m : ℕ) → 1 ≤ m → m ≤ 12 → (leb 1 m && leb m 12) ≡ true
in_month m h k = ground arith

within : (a b : ℕ) → 1 ≤ a → a ≤ b → (leb 1 a && leb a b) ≡ true
within a b h k = ground arith

skip_dash_lem : (rest : Bytes) → skip_dash (b'-' ∷ rest) ≡ some rest
unfolding skip_dash
skip_dash_lem rest = refl

two_digits_end : (d : ℕ) → d < 100 → two_digits (two_wide d) ≡ some (d, [])
unfolding two_digits two_wide
two_digits_end d h = ground arith

at_end_lem : at_end [] ≡ true
unfolding at_end
at_end_lem = refl

parse-format_parts :
    (y m d : ℕ)
    → y < 10000
    → 1 ≤ m
    → m ≤ 12
    → 1 ≤ d
    → d ≤ days_in (pos y) m
    → parse_date (four_wide y ++ (b'-' ∷ (two_wide m ++ (b'-' ∷ two_wide d))))
      ≡ some (record { year = pos y; month = m; day = d })
unfolding parse_date
parse-format_parts y m d hy lo hi lo' fit = rw (
  four_digits-four_wide y _ hy,
  skip_dash_lem _,
  two_digits-two_wide m _ (omega arith),
  in_month m lo hi,
  skip_dash_lem _,
  two_digits_end d (omega (arith, days_in-le (pos y) m)),
  at_end_lem,
  within d (days_in (pos y) m) lo' fit,
)

parse-format_year :
    (y : ℤ) (m d : ℕ)
    → pos 0 ≤ℤ y
    → y ≤ℤ pos 9999
    → 1 ≤ m
    → m ≤ 12
    → 1 ≤ d
    → d ≤ days_in y m
    → parse_date (format_year y ++ (b'-' ∷ (two_wide m ++ (b'-' ∷ two_wide d))))
      ≡ some (record { year = y; month = m; day = d })
unfolding format_year
parse-format_year (pos y) m d h k lo hi lo' fit =
    parse-format_parts y m d (omega arith) lo hi lo' fit
parse-format_year (negsuc y) m d h k lo hi lo' fit = absurd (omega arith)

-- A civil date of a year from 0 to 9999, once printed, is read back unchanged.
pub parse_date-format_date : (t : Date) → IsCommon t → parse_date (format_date t) ≡ some t
unfolding format_date
parse_date-format_date t h =
    parse-format_year t.year t.month t.day h.from_year h.to_year h.is_date.from_month
      h.is_date.to_month h.is_date.from_day h.is_date.to_day

places :
    (p q r u : ℕ)
    → p < 10
    → q < 10
    → r < 10
    → u < 10
    → let n = p * 1000 + q * 100 + r * 10 + u in
      (n < 10000) × (n / 1000 ≡ p) × (n / 100 % 10 ≡ q) × (n / 10 % 10 ≡ r) × (n % 10 ≡ u)
places p q r u hp hq hr hu = omega arith

four_wide_places :
    (p q r u : ℕ)
    → p < 10
    → q < 10
    → r < 10
    → u < 10
    → four_wide (p * 1000 + q * 100 + r * 10 + u)
      ≡ (b'0' + p) ∷ (b'0' + q) ∷ (b'0' + r) ∷ (b'0' + u) ∷ []
unfolding four_wide
four_wide_places p q r u hp hq hr hu =
    let (small, e, f, g, h) = places p q r u hp hq hr hu in rw (lt→ltb _ _ small, e, f, g, h)

IsDigit : ℕ → Type 0
IsDigit c = (b'0' + (c - b'0') ≡ c) × (c - b'0' < 10)

are_digits :
    (a b c d : ℕ)
    → (is_digit a && (is_digit b && (is_digit c && is_digit d))) ≡ true
    → IsDigit a × IsDigit b × IsDigit c × IsDigit d
unfolding IsDigit
are_digits a b c d h = (ground arith, ground arith, ground arith, ground arith)

Reads : Bytes → ℕ × Bytes → Type 0
Reads s (n, r) = (s ≡ four_wide n ++ r) × (n < 10000)

four_read :
    (a b c d : ℕ) (rest : Bytes)
    → IsDigit a
    → IsDigit b
    → IsDigit c
    → IsDigit d
    → let n = (a - b'0') * 1000 + (b - b'0') * 100 + (c - b'0') * 10 + (d - b'0') in
      (a ∷ b ∷ c ∷ d ∷ rest ≡ four_wide n ++ rest) × (n < 10000)
unfolding IsDigit
four_read a b c d rest (ea, la) (eb, lb) (ec, lc) (ed, ld) =
    (rw (four_wide_places _ _ _ _ la lb lc ld, ea, eb, ec, ed), omega arith)

four_digits-inv :
    (s : Bytes) {n : ℕ} {r : Bytes}
    → four_digits s ≡ some (n, r)
    → (s ≡ four_wide n ++ r) × (n < 10000)
unfolding four_digits Reads
four_digits-inv [] h = cc
four_digits-inv (a ∷ []) h = cc
four_digits-inv (a ∷ b ∷ []) h = cc
four_digits-inv (a ∷ b ∷ c ∷ []) h = cc
four_digits-inv (a ∷ b ∷ c ∷ d ∷ rest) {n} {r} h =
    let (ds, e) = guard-eq-some _ _ h in
    let (da, db, dc, dd) = are_digits a b c d ds in
    let (p, q) = four_read a b c d rest da db dc dd in
    subst (Reads (a ∷ b ∷ c ∷ d ∷ rest)) (some_inj e) (p, q)

two_digits-inv :
    (s : Bytes) {n : ℕ} {r : Bytes} → two_digits s ≡ some (n, r) → (s ≡ two_wide n ++ r) × (n < 100)
unfolding two_digits two_wide
two_digits-inv [] h = cc
two_digits-inv (a ∷ []) h = cc
two_digits-inv (a ∷ b ∷ rest) h = ground arith

skip_dash-inv : (s : Bytes) {r : Bytes} → skip_dash s ≡ some r → s ≡ b'-' ∷ r
unfolding skip_dash
skip_dash-inv [] h = cc
skip_dash-inv (c ∷ rest) h = ground arith

at_end-inv : (s : Bytes) → at_end s ≡ true → s ≡ []
unfolding at_end
at_end-inv [] h = refl
at_end-inv (c ∷ s) h = cc

format_date-read :
    (s s1 s2 s3 s4 s5 : Bytes) (y m d : ℕ)
    → four_digits s ≡ some (y, s1)
    → skip_dash s1 ≡ some s2
    → two_digits s2 ≡ some (m, s3)
    → skip_dash s3 ≡ some s4
    → two_digits s4 ≡ some (d, s5)
    → at_end s5 ≡ true
    → format_date (record { year = pos y; month = m; day = d }) ≡ s
unfolding format_date format_year
format_date-read s s1 s2 s3 s4 s5 y m d e1 e2 e3 e4 e5 he = rw (
  (four_digits-inv s e1).0,
  skip_dash-inv s1 e2,
  (two_digits-inv s2 e3).0,
  skip_dash-inv s3 e4,
  (two_digits-inv s4 e5).0,
  at_end-inv s5 he,
  append-nil,
)

civil-IsDate :
    (y m d : ℕ)
    → (leb 1 m && leb m 12) ≡ true
    → (leb 1 d && leb d (days_in (pos y) m)) ≡ true
    → IsDate (record { year = pos y; month = m; day = d })
civil-IsDate y m d hm hd = record {
  from_month = ground arith;
  to_month = ground arith;
  from_day = ground arith;
  to_day = ground arith;
}

-- Every text that is read as a date is the date in print, and the date is civil.
pub format_date-parse_date :
    (s : Bytes) (t : Date) → parse_date s ≡ some t → IsCommon t × (format_date t ≡ s)
unfolding parse_date
format_date-parse_date s t h =
    let ((y, s1), e1, h1) = >>=-eq-some (four_digits s) _ h in
    let (s2, e2, h2) = >>=-eq-some (skip_dash s1) _ h1 in
    let ((m, s3), e3, h3) = >>=-eq-some (two_digits s2) _ h2 in
    let (hm, h4) = guard-eq-some (leb 1 m && leb m 12) _ h3 in
    let (s4, e4, h5) = >>=-eq-some (skip_dash s3) _ h4 in
    let ((d, s5), e5, h6) = >>=-eq-some (two_digits s4) _ h5 in
    let (he, h7) = guard-eq-some (at_end s5) _ h6 in
    let (hd, e) = guard-eq-some (leb 1 d && leb d (days_in (pos y) m)) _ h7 in
    subst (λ t. IsCommon t × (format_date t ≡ s)) (some_inj e)
      (
        record {
          is_date = civil-IsDate y m d hm hd;
          from_year = omega arith;
          to_year = omega (arith, (four_digits-inv s e1).1);
        },
        format_date-read s s1 s2 s3 s4 s5 y m d e1 e2 e3 e4 e5 he,
      )

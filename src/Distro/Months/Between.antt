-- ===== src/Distro/Months/Between.antt =====
-- `monthsBetween` by month index, and its agreement with `addMonths`.
use gnodi.Base.{ℕ, zero, suc, ◌+◌, ◌-◌, ◌/◌, ◌%◌, ◌^◌, ◌≤◌, ◌<◌, ◌≡◌, true, false}
use gnodi.Base.{
  ◌∙◌, sym, ltb, ◌==◌, if◌then◌else◌, arith, ◌⊎◌, inl, inr, ap, subst, subst₂, Bool-cases,
}
use gnodi.Base.Int.{pos, negsuc, pos_part, ◌+ℤ◌, ◌-ℤ◌, ◌*ℤ◌}
use gnodi.Calendar.{Date, Runtime, exact, days_in, days_in_month, before}
use gnodi.Calendar.Months.{month_length}
use gnodi.Calendar.Order.{
  date_at, Earlier, before_iff, IsModern, month_index, eq-date_at, month_index-le,
}
use native.Mathlib.Nat.{add-zero}
use gnodi.Distro.Months.{add_months, full_months, months_between}
use gnodi.Distro.Months.AddMonths.{lesser, day_zero, add_months-date_at}

index_gap :
    (j k : ℕ)
    → j ≤ k
    → ((pos (k / 12) -ℤ pos (j / 12)) *ℤ 12 +ℤ pos (k % 12 + 1)) -ℤ pos (j % 12 + 1) ≡ pos (k - j)
unfolding ◌+ℤ◌ ◌-ℤ◌ ◌*ℤ◌
index_gap j k h = ground arith

-- The months from day `c` of month `j` to day `d` of month `k`.
abbrev pub elapsed : ℕ → ℕ → ℕ → ℕ → ℕ
elapsed j c k d = if ltb d c then (if d == month_length k then k - j else k - j - 1) else k - j

less_one : (n : ℕ) → 1 ≤ n → pos n -ℤ pos 1 ≡ pos (n - 1)
unfolding ◌-ℤ◌
less_one n h = ground arith

full_months-date_at :
    (j c k d : ℕ)
    → j ≤ k
    → (d < c → j < k)
    → full_months (date_at j c) (date_at k d) (pos (k - j)) ≡ pos (elapsed j c k d)
unfolding full_months month_length
full_months-date_at j c k d h l =
    rw (day_zero (pos (k / 12)) (k % 12 + 1) (omega arith)) (ground (arith, less_one (k - j)))

months_between-date_at :
    (j c k d : ℕ)
    → j ≤ k
    → (d < c → j < k)
    → before (date_at k d) (date_at j c) ≡ false
    → months_between (date_at j c) (date_at k d) ≡ pos (elapsed j c k d)
unfolding months_between
months_between-date_at j c k d h l e =
    rw (e, index_gap j k h, full_months-date_at j c k d h l) (ground arith)

abbrev pub IsDay : ℕ → ℕ → Type 0
IsDay k d = (1 ≤ d) × (d ≤ month_length k)

lesser-IsDay : (c k : ℕ) → 1 ≤ c → 1 ≤ month_length k → IsDay k (lesser c (month_length k))
lesser-IsDay c k h m = ground arith

not_before :
    (j c k d : ℕ)
    → IsDay j c
    → IsDay k d
    → ¬ (Earlier j c k d)
    → before (date_at j c) (date_at k d) ≡ false
not_before j c k d (hc, hj) (hd, hk) n = elim (Bool-cases (before (date_at j c) (date_at k d))) [
  | inl e ↦ absurd (n ((before_iff j c k d hc hj hd hk).0 e))
  | inr e ↦ e
]

is_before :
    (j c k d : ℕ)
    → IsDay j c
    → IsDay k d
    → Earlier j c k d
    → before (date_at j c) (date_at k d) ≡ true
is_before j c k d (hc, hj) (hd, hk) = (before_iff j c k d hc hj hd hk).1

not_earlier :
    (j c k d : ℕ)
    → IsDay j c
    → IsDay k d
    → before (date_at j c) (date_at k d) ≡ false
    → ¬ (Earlier j c k d)
not_earlier j c k d hc hd e h = cc (is_before j c k d hc hd h)

-- The count ends in the month of the end date, or in the one before it.
elapsed_cases :
    (j c k d : ℕ)
    → ¬ (Earlier k d j c)
    → IsDay k d
    → ((j + elapsed j c k d ≡ k) × ((c ≤ d) ⊎ (d ≡ month_length k)))
      ⊎ ((j + (elapsed j c k d + 1) ≡ k) × (d < c) × (d < month_length k))
elapsed_cases j c k d n h = ground arith

reached :
    (j c k d e : ℕ)
    → (j + e ≡ k)
    → ((c ≤ d) ⊎ (d ≡ month_length k))
    → ¬ (Earlier k d (j + e) (lesser c (month_length (j + e))))
reached j c k d e p q = rw p (ground arith)

passed :
    (j c k d e : ℕ)
    → (j + e ≡ k)
    → (d < c)
    → (d < month_length k)
    → Earlier k d (j + e) (lesser c (month_length (j + e)))
passed j c k d e p q r = rw p (ground arith)

elapsed_month :
    (j c k d : ℕ)
    → ¬ (Earlier k d j c)
    → IsDay k d
    → ¬ (Earlier k d (j + elapsed j c k d) (lesser c (month_length (j + elapsed j c k d))))
elapsed_month j c k d n h = elim (elapsed_cases j c k d n h) [
  | inl (p, q) ↦ reached j c k d (elapsed j c k d) p q
  | inr (p, q, r) ↦ λ x. ground (arith, p, q, r, x)
]

elapsed_next :
    (j c k d : ℕ)
    → ¬ (Earlier k d j c)
    → IsDay k d
    → Earlier k d (j + (elapsed j c k d + 1)) (lesser c (month_length (j + (elapsed j c k d + 1))))
elapsed_next j c k d n h = elim (elapsed_cases j c k d n h) [
  | inl (p, q) ↦ inl (omega (arith, p))
  | inr (p, q, r) ↦ passed j c k d (elapsed j c k d + 1) p q r
]

-- What `monthsBetween` counts: after `n` months the end has been reached, after `n + 1` it has not.
abbrev pub Counts : Runtime → Date → Date → ℕ → Type 0
Counts runtime start end n =
    (months_between start end ≡ pos n)
    × (before end (add_months runtime start (pos n)) ≡ false)
    × (before end (add_months runtime start (pos (n + 1))) ≡ true)

month_length_pos : (k : ℕ) → 1 ≤ month_length k
unfolding month_length days_in days_in_month
month_length_pos k = ground arith

elapsed-le : (j c k d : ℕ) → ¬ (Earlier k d j c) → j + elapsed j c k d ≤ k
elapsed-le j c k d n = ground arith

count-date_at :
    (runtime : Runtime) (j c k d : ℕ)
    → k ≤ 1200000000011
    → IsDay j c
    → IsDay k d
    → before (date_at k d) (date_at j c) ≡ false
    → Counts runtime (date_at j c) (date_at k d) (elapsed j c k d)
count-date_at runtime j c k d near hc hd e =
    let n = not_earlier k d j c hd hc e in
    let m = elapsed j c k d in
    let last : j + m ≤ k = elapsed-le j c k d n in
    (
      months_between-date_at j c k d (ground arith) (ground arith) e,
      rw (add_months-date_at runtime j c m (omega (arith, last)) hc.0) (
          not_before k d (j + m) _ hd (lesser-IsDay c (j + m) hc.0 (month_length_pos (j + m)))
            (elapsed_month j c k d n hd)),
      rw (add_months-date_at runtime j c (m + 1) (omega (arith, last)) hc.0) (
          is_before k d (j + (m + 1)) _ hd
            (lesser-IsDay c (j + (m + 1)) hc.0 (month_length_pos (j + (m + 1))))
            (elapsed_next j c k d n hd)),
    )

pub is_day : (t : Date) → IsModern t → IsDay (month_index t) t.day
unfolding month_length
is_day t h = (h.is_date.from_day, rw (← len t h) h.is_date.to_day)
  where
    len : (t : Date) → IsModern t → days_in t.year t.month ≡ month_length (month_index t)
    len t h = ap (λ (u : Date). days_in u.year u.month) (eq-date_at t h)

abbrev HasCount : Runtime → Date → Date → Type 0
HasCount runtime start end = before end start ≡ false → (n : ℕ) × Counts runtime start end n

-- On civil dates of the years 0 to 10 ^ 11 of which the end is not before the start,
-- `monthsBetween` returns the number `n` of months such that the start plus `n` months, by
-- `addMonths`, is not after the end, and the start plus `n + 1` months is, whatever Go does with
-- dates that are too far for its clock.
pub months_between-Counts :
    (runtime : Runtime) (start end : Date)
    → IsModern start
    → IsModern end
    → before end start ≡ false
    → (n : ℕ) × Counts runtime start end n
months_between-Counts runtime start end hs he =
    subst₂ (HasCount runtime) (sym (eq-date_at start hs)) (sym (eq-date_at end he)) (λ e. (
      _,
      count-date_at runtime (month_index start) start.day (month_index end) end.day
          (month_index-le end he) (is_day start hs) (is_day end he) e,
    ))

short_month :
    (j c n : ℕ)
    → 1 ≤ c
    → c ≤ month_length j
    → elapsed j c (j + n) (lesser c (month_length (j + n))) ≡ n
short_month j c n h l = ground arith

not_before_later :
    (j c n : ℕ) → c ≤ month_length j → ¬ (Earlier (j + n) (lesser c (month_length (j + n))) j c)
not_before_later j c zero h = rw (add-zero j) (ground arith)
not_before_later j c (suc n) h = ground arith

round_trip :
    (runtime : Runtime) (j c n : ℕ)
    → j + n ≤ 3500000000000
    → IsDay j c
    → months_between (date_at j c) (add_months runtime (date_at j c) (pos n)) ≡ pos n
round_trip runtime j c n near h =
    let d = lesser c (month_length (j + n)) in
    rw (add_months-date_at runtime j c n near h.0) (
      months_between-date_at j c (j + n) d (omega arith) (clamped n) (
        not_before (j + n) d j c (lesser-IsDay c (j + n) h.0 (month_length_pos (j + n))) h
          (not_before_later j c n h.1))
      ∙ ap pos (short_month j c n h.0 h.1))
  where
    clamped : (n : ℕ) → lesser c (month_length (j + n)) < c → j < j + n
    clamped zero l = absurd (not_before_later j c zero h.1 (inr (omega arith, l)))
    clamped (suc n) l = omega arith

-- For a date of the years 0 to 10 ^ 11 and up to 2 ^ 40 months, counting the months to the date
-- that `addMonths` reaches by `n` months gives `n` back, although the day may have been clamped to
-- the end of a shorter month.
pub months_between-add_months :
    (runtime : Runtime) (t : Date) (n : ℕ)
    → IsModern t
    → n ≤ 2 ^ 40
    → months_between t (add_months runtime t (pos n)) ≡ pos n
months_between-add_months runtime t n h l =
    subst (λ u. months_between u (add_months runtime u (pos n)) ≡ pos n) (sym (eq-date_at t h))
      (round_trip runtime (month_index t) t.day n (omega (arith, month_index-le t h)) (is_day t h))

-- An end before the start gives -1.
pub months_between-before :
    (start end : Date) → before end start ≡ true → months_between start end ≡ negsuc 0
unfolding months_between
months_between-before start end e = rw e

abbrev IsBounded : Date → Date → Type 0
IsBounded start end =
    (n : ℕ) → before end start ≡ false → months_between start end ≡ pos n → n ≤ month_index end

-- The count is at most the months from January of the year 0 to the end.
pub months_between-le : (start end : Date) → IsModern start → IsModern end → IsBounded start end
months_between-le start end hs he =
    subst₂ IsBounded (sym (eq-date_at start hs)) (sym (eq-date_at end he)) λ n e m.
      let (j, k) = indices in
      bounded n (
        ap pos_part (
          sym m
          ∙ (count-date_at exact (month_index start) start.day (month_index end) end.day
              (month_index-le end he) (is_day start hs) (is_day end he) e).0))
  where
    indices : ℕ × ℕ
    indices = (month_index start, month_index end)

    same : (k d : ℕ) → month_index (date_at k d) ≡ k
    same k d = omega arith

    bounded :
        (n : ℕ)
        → n ≡ elapsed (month_index start) start.day (month_index end) end.day
        → n ≤ month_index (date_at (month_index end) end.day)
    bounded n e = rw (same (month_index end) end.day, e) (ground arith)

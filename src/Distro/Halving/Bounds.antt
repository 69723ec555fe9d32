-- ===== src/Distro/Halving/Bounds.antt =====
-- The schedule in plain arithmetic: period `p` releases the supply divided by 2 ^ p, and all periods
-- together never release more than the supply.
use gnodi.Base.{
  ℕ, zero, suc, ◌+◌, ◌-◌, ◌*◌, ◌/◌, ◌%◌, ◌^◌, ◌≤◌, ◌<◌, ◌≡◌, sym, ◌∙◌, ap, some, ◌||◌, ltb, ◌==◌,
  true, false,
}
use gnodi.Base.{arith}
use gnodi.Base.Partial.{checked_div}
use native.Mathlib.Nat.{
  pow-suc, pow-succ', div-le_self, pow-le-pow_right, div-div-eq-div-mul, div-eq_of_lt, mod-eq_of_lt,
}
use native.Mathlib.Decide.{dec_lt}
use native.Mathlib.Numerals.{add-one}
use gnodi.Distro.Halving.{shifted_one, halving_period_limit, add_periods}

abbrev pub IsU64 : ℕ → Type 0
IsU64 n = n < 2 ^ 64

two_pow_le : (i j : ℕ) → i ≤ j → 2 ^ i ≤ 2 ^ j
two_pow_le i j h = pow-le-pow_right (omega arith) h

two_pow_pos : (n : ℕ) → 1 ≤ 2 ^ n
two_pow_pos n = two_pow_le 0 n (omega arith)

two_pow_suc : (n : ℕ) → 2 ^ suc n ≡ 2 ^ n * 2
two_pow_suc n = pow-suc 2 n

shifted_one_lem : (n : ℕ) → n < 64 → shifted_one n ≡ 2 ^ n
unfolding shifted_one
shifted_one_lem n h =
    mod-eq_of_lt (omega (arith, two_pow_le (suc n) 64 h, two_pow_suc n, two_pow_pos n))

div_two_pow : (a n : ℕ) → a / 2 ^ n / 2 ≡ a / 2 ^ suc n
div_two_pow a n = rw (two_pow_suc n) (div-div-eq-div-mul a (2 ^ n) 2)

checked_div_pos : (a b : ℕ) → 1 ≤ b → checked_div a b ≡ some (a / b)
unfolding checked_div
checked_div_pos a b h = ground arith

exhausted : (a n : ℕ) → IsU64 a → 64 ≤ n → a / 2 ^ n ≡ 0
exhausted a n h k = div-eq_of_lt (omega (arith, two_pow_le 64 n k))

in_range : (n : ℕ) → n < 64 → (suc n == 0 || ltb 64 (suc n)) ≡ false
in_range n h = ground arith

pred_suc : (n : ℕ) → suc n - 1 ≡ n
pred_suc n = omega arith

late_period : (a p : ℕ) → 64 < p → halving_period_limit a p ≡ some 0
unfolding halving_period_limit
late_period a p h = rw (past p h)
  where
    past : (p : ℕ) → 64 < p → (p == 0 || ltb 64 p) ≡ true
    past p h = ground arith

early_period : (a n : ℕ) → n < 64 → halving_period_limit a (suc n) ≡ some (a / 2 ^ suc n)
unfolding halving_period_limit
early_period a n h = rw (
  in_range n h,
  pred_suc n,
  shifted_one_lem n h,
  checked_div_pos a (2 ^ n) (two_pow_pos n),
  checked_div_pos (a / 2 ^ n) 2 (omega arith),
  div_two_pow a n,
)

-- For a uint64 supply the limit of every period from 1 on is the supply divided by 2 ^ period,
-- rounded down, also for the periods past 64; no shift is too wide and no division panics.
pub halving_period_limit_lem :
    (max_supply period : ℕ)
    → IsU64 max_supply
    → 1 ≤ period
    → halving_period_limit max_supply period ≡ some (max_supply / 2 ^ period)
halving_period_limit_lem a zero h l = elim l [ ]
halving_period_limit_lem a (suc n) h l = elim (dec_lt n 64) [
  | yes early ↦ early_period a n early
  | no late ↦
      late_period a (suc n) (omega arith) ∙ ap some (sym (exhausted a (suc n) h (omega arith)))
]

pub later_limit-le : (a k : ℕ) → a / 2 ^ (k + 1) ≤ a / 2
later_limit-le a k =
    rw (add-one k, pow-succ' 2 k, ← div-div-eq-div-mul a 2 (2 ^ k)) (div-le_self (a / 2) (2 ^ k))

-- What the first `k` periods release together.
unfoldable pub released : ℕ → ℕ → ℕ
released max_supply zero = 0
released max_supply (suc k) = released max_supply k + max_supply / 2 ^ suc k

-- What is released and the half that is still to come never exceed the supply.
pub released-le : (a k : ℕ) → released a k + a / 2 ^ k ≤ a
unfolding released
released-le a zero = omega arith
released-le a (suc k) = omega (arith, released-le a k, div_two_pow a k)

pub released-suc : (a k : ℕ) → released a (k + 1) ≡ released a k + a / 2 ^ (k + 1)
unfolding released
released-suc a k = rw (add-one k)

released_fits : (a k : ℕ) → IsU64 a → released a (k + 1) < 2 ^ 64
released_fits a k h = omega (arith, released-le a (k + 1))

add_periods_from :
    (rounds a k : ℕ)
    → IsU64 a
    → add_periods rounds a (k + 1) (released a k) ≡ some (released a (k + rounds))
unfolding add_periods
add_periods_from zero a k h = ap (λ n. some (released a n)) (omega arith)
add_periods_from (suc r) a k h =
    rw (halving_period_limit_lem a (k + 1) h (omega arith), no_wrap, rounds_left)
      (add_periods_from r a (k + 1) h)
  where
    no_wrap : (released a k + a / 2 ^ (k + 1)) % 2 ^ 64 ≡ released a (k + 1)
    no_wrap = mod-eq_of_lt (rw (← released-suc a k) (released_fits a k h)) ∙ sym (released-suc a k)

    rounds_left : k + suc r ≡ k + 1 + r
    rounds_left = omega arith

-- For a uint64 supply, the loop over any number of periods that are over returns the sum of their
-- limits: no addition wraps around and nothing panics.
pub add_periods_lem :
    (rounds max_supply : ℕ)
    → IsU64 max_supply
    → add_periods rounds max_supply 1 0 ≡ some (released max_supply rounds)
unfolding released
add_periods_lem r a h = add_periods_from r a 0 h ∙ ap (λ n. some (released a n)) (omega arith)

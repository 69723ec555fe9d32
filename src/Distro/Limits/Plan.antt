-- ===== src/Distro/Limits/Plan.antt =====
-- The emission schedule in whole numbers, and that it does not fall as time goes on.
use gnodi.Base.{ℕ, zero, suc, ◌+◌, ◌-◌, ◌*◌, ◌/◌, ◌^◌, ◌≤◌, ◌<◌, ◌≡◌}
use gnodi.Base.{refl, sym, arith, ◌⊎◌, inl, inr, ap}
use gnodi.Base.Nat.{div-le-div_right}
use gnodi.Calendar.{Date}
use native.Mathlib.Nat.{mul-le-mul_left, mul_comm, div-le_of_le-mul, add-zero, le_refl}
use gnodi.Distro.Months.Numbers.{number, number_after}
use gnodi.Distro.Halving.Bounds.{released, released-suc}

-- The schedule: the periods before are released whole, and the current one day by day.
unfoldable pub scheduled : ℕ → ℕ → Date → Date → ℕ → ℕ
scheduled max_supply M start target n =
    let a = n / M * M in
    released max_supply (n / M)
    + max_supply
      / 2 ^ (n / M + 1)
      * (number target - number_after start a)
      / (number_after start (a + M) - number_after start a)

plan : ℕ → ℕ → ℕ → ℕ → ℕ
plan max_supply k e D = released max_supply k + max_supply / 2 ^ (k + 1) * e / D

plan_days : (a k e e' D : ℕ) → e ≤ e' → plan a k e D ≤ plan a k e' D
unfolding plan
plan_days a k e e' D h = omega (arith, div-le-div_right D (mul-le-mul_left (a / 2 ^ (k + 1)) h))

released_mono : (a k m : ℕ) → released a k ≤ released a (k + m)
released_mono a k zero = rw (add-zero k) (le_refl _)
released_mono a k (suc m) =
    rw (later k m) (omega (arith, released_mono a k m, released-suc a (k + m)))
  where
    later : (k m : ℕ) → k + suc m ≡ k + m + 1
    later k m = omega arith

plan_periods : (a k k' e e' D D' : ℕ) → k < k' → e ≤ D → plan a k e D ≤ plan a k' e' D'
unfolding plan
plan_periods a k k' e e' D D' l h =
    let part = a / 2 ^ (k + 1) in
    let some_days : part * e / D ≤ part =
      div-le_of_le-mul D (omega (arith, mul-le-mul_left part h, mul_comm part D)) in
    omega (
      arith,
      some_days,
      released-suc a k,
      released_mono a (k + 1) (k' - (k + 1)),
      ap (released a) (up_to k k' l),
    )
  where
    up_to : (k k' : ℕ) → k < k' → k + 1 + (k' - (k + 1)) ≡ k'
    up_to k k' l = omega arith

scheduled-plan :
    (a M : ℕ) (start target : Date) (n k : ℕ)
    → n / M ≡ k
    → scheduled a M start target n
      ≡ plan a k
          (number target - number_after start (k * M))
          (number_after start (k * M + M) - number_after start (k * M))
unfolding scheduled plan
scheduled-plan a M start target n k e = rw e

quotient_order : (n n' M : ℕ) → n ≤ n' → (n / M < n' / M) ⊎ (n / M ≡ n' / M)
quotient_order n n' M h = omega (arith, div-le-div_right M h)

-- The schedule does not fall while the target moves on.
pub scheduled_mono :
    (a M : ℕ) (start s t : Date) (n n' : ℕ)
    → 1 ≤ M
    → n ≤ n'
    → number s ≤ number t
    → number s < number_after start (n / M * M + M)
    → scheduled a M start s n ≤ scheduled a M start t n'
scheduled_mono a M start s t n n' hM h l p = elim (quotient_order n n' M h) [
  | inl e ↦
      rw (scheduled-plan a M start s n (n / M) refl, scheduled-plan a M start t n' (n' / M) refl)
        (plan_periods a (n / M) (n' / M) _ _ _ _ e (omega arith))
  | inr e ↦
      rw (scheduled-plan a M start s n (n / M) refl, scheduled-plan a M start t n' (n / M) (sym e))
        (plan_days a (n / M) _ _ _ (omega arith))
]

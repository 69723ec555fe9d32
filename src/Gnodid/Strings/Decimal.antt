-- ===== src/Gnodid/Strings/Decimal.antt =====
-- A decimal text reads as its number: the rounds that `itoa` is given are enough.
use gnodi.Base.{
  ap, sym, ◌∙◌, arith, ℕ, zero, suc, ◌+◌, ◌-◌, ◌*◌, ◌/◌, ◌%◌, ◌<◌, ◌≡◌, Bool-cases, inl, inr, [],
  ◌∷◌, ltb,
}
use gnodi.Base.Int.{pos}
use gnodi.Base.Text.{Bytes}
use gnodi.Gnodid.Strings.{itoa, digits}

-- The number whose digits follow those of `n`.
abbrev pub value : ℕ → Bytes → ℕ
value n [] = n
value n (c ∷ s) = value (n * 10 + (c - b'0')) s

digits-value : (fuel n : ℕ) (rest : Bytes) → n < fuel → value 0 (digits fuel n rest) ≡ value n rest
digits-value zero n rest h = absurd (omega (arith, h))
digits-value (suc fuel) n rest h = elim (Bool-cases (ltb n 10)) [
  | inl small ↦ rw small (ap (λ m. value m rest) (omega arith))
  | inr large ↦ rw large (
      digits-value fuel (n / 10) ((b'0' + n % 10) ∷ rest) (ground (arith, h, large))
      ∙ ap (λ m. value m rest) (omega arith))
]

pub itoa-value : (n : ℕ) → value 0 (itoa (pos n)) ≡ n
unfolding itoa
itoa-value n = digits-value (suc n) n [] (omega arith)

pub itoa_injective : (m n : ℕ) → itoa (pos m) ≡ itoa (pos n) → m ≡ n
itoa_injective m n h = sym (itoa-value m) ∙ ap (value 0) h ∙ itoa-value n

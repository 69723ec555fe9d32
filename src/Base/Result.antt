-- ===== src/Base/Result.antt =====
-- Go's `(value, error)` results.
use mathlib.Core.Bool.{Bool, true, false}
use mathlib.Core.Path.{◌≡◌, refl}
use gnodi.Base.Tests.{⊤}

pub data Result {ℓ} (E : Type 0) (A : Type ℓ) : Type ℓ where
  ok : A → Result E A
  err : E → Result E A

infixl 5 ◌>>=◌ ◌>>◌
abbrev pub ◌>>=◌ {ℓ κ} :
    {E : Type 0} {A : Type ℓ} {B : Type κ} → Result E A → (A → Result E B) → Result E B
ok a >>= f = f a
err e >>= f = err e

abbrev pub ◌>>◌ {κ} : {E : Type 0} {B : Type κ} → Result E ⊤ → Result E B → Result E B
m >> k = m >>= λ _. k

-- `if c { return e }`
abbrev pub fail_if : {E : Type 0} → Bool → E → Result E ⊤
fail_if true e = err e
fail_if false e = ok tt

-- `if err != nil { return e }`
abbrev pub require : {E : Type 0} → Bool → E → Result E ⊤
require true e = ok tt
require false e = err e

-- A sequence that ended well went through its first part.
pub bind-ok {ℓ κ} :
    {E : Type 0} {A : Type ℓ} {B : Type κ} (m : Result E A) (f : A → Result E B) {b : B}
    → m >>= f ≡ ok b
    → (a : A) × (m ≡ ok a) × (f a ≡ ok b)
bind-ok (ok a) f h = (a, refl, h)
bind-ok (err e) f h = cc

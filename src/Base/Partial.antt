-- ===== src/Base/Partial.antt =====
-- Computations without a value: a failed parse, or a run-time panic.
use Prim.Native.Nat.{ℕ, ◌/◌}
use mathlib.Core.Path.{◌≡◌, refl, ap}
use mathlib.Core.Option.{Option, none, some}
use gnodi.Base.Tests.{◌==◌, if◌then◌else◌, ⊤}
use mathlib.Core.Bool.{Bool, true, false}

infixl 5 ◌>>=◌ ◌>>◌
abbrev pub ◌>>=◌ {ℓ κ} : {A : Type ℓ} {B : Type κ} → Option A → (A → Option B) → Option B
none >>= f = none
some a >>= f = f a

abbrev pub ◌>>◌ {κ} : {B : Type κ} → Option ⊤ → Option B → Option B
m >> k = m >>= λ _. k

abbrev pub guard : Bool → Option ⊤
guard true = some tt
guard false = none

-- Go's `/` on unsigned integers: a division by zero panics.
unfoldable pub checked_div : ℕ → ℕ → Option ℕ
checked_div a b = if b == 0 then none else some (a / b)

pub some_inj {ℓ} : {A : Type ℓ} {a b : A} → some a ≡ some b → a ≡ b
some_inj {a} h = ap (λ o. elim o [ none ↦ a | some x ↦ x ]) h

-- Inversion of a step that succeeded.
pub >>=-eq-some {ℓ κ} :
    {A : Type ℓ} {B : Type κ} (m : Option A) (f : A → Option B) {b : B}
    → (m >>= f) ≡ some b
    → (a : A) × (m ≡ some a) × (f a ≡ some b)
>>=-eq-some none f h = cc
>>=-eq-some (some a) f h = (a, refl, h)

pub guard-eq-some {κ} :
    {B : Type κ} (c : Bool) (k : Option B) {b : B}
    → (guard c >> k) ≡ some b
    → (c ≡ true) × (k ≡ some b)
guard-eq-some true k h = (refl, h)
guard-eq-some false k h = cc

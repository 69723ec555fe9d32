-- ===== src/Distro/Outcome.antt =====
-- How a call of the keeper ends: with a value, with an error, or in a panic.
use gnodi.Base.{ap, ◌≡◌, ℕ, Bool, true, false, Option, none, some, ⊤}
use gnodi.Base.Text.{Bytes}
use gnodi.Distro.Params.{ParamsError}

-- The errors of the handlers; `bank_failure` and `store_failure` are those that a keeper or a store
-- returned, and `invalid_params` is an error of `Params.Validate`.
pub data Error : Type 0 where
  invalid_signer_address params_not_initialized unauthorized max_supply_exceeded : Error
  invalid_start_date invalid_target_date target_before_start : Error
  exceeds_distributable : ℕ → Error
  invalid_receiver bank_failure store_failure : Error
  invalid_authority_address : Error
  invalid_signer : Bytes → Error
  invalid_params : ParamsError → Error
  invalid_request query_not_found query_internal : Error

pub data Outcome {ℓ} (A : Type ℓ) : Type ℓ where
  ok : A → Outcome A
  err : Error → Outcome A
  panic : Outcome A

infixl 5 ◌>>=◌ ◌>>◌
abbrev pub ◌>>=◌ {ℓ κ} : {A : Type ℓ} {B : Type κ} → Outcome A → (A → Outcome B) → Outcome B
ok a >>= f = f a
err e >>= f = err e
panic >>= f = panic

abbrev pub ◌>>◌ {κ} : {B : Type κ} → Outcome ⊤ → Outcome B → Outcome B
m >> k = m >>= λ _. k

abbrev pub fail_if : Bool → Error → Outcome ⊤
fail_if true e = err e
fail_if false e = ok tt

-- A value, or this error.
abbrev pub or_fail {ℓ} : {A : Type ℓ} → Option A → Error → Outcome A
or_fail none e = err e
or_fail (some a) e = ok a

-- A value, or a panic.
abbrev pub or_panic {ℓ} : {A : Type ℓ} → Option A → Outcome A
or_panic none = panic
or_panic (some a) = ok a

pub ok_inj {ℓ} : {A : Type ℓ} {a b : A} → ok a ≡ ok b → a ≡ b
ok_inj {a = a} h = ap (λ o. elim o [ ok x ↦ x | _ ↦ a ]) h

pub or_fail-ok {ℓ} :
    {A : Type ℓ} (o : Option A) (e : Error) {a : A} → or_fail o e ≡ ok a → o ≡ some a
or_fail-ok none e h = cc
or_fail-ok (some b) e h = cc

pub or_panic-ok {ℓ} : {A : Type ℓ} (o : Option A) {a : A} → or_panic o ≡ ok a → o ≡ some a
or_panic-ok none h = cc
or_panic-ok (some b) h = cc

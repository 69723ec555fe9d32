-- ===== src/Distro/Keeper/Env.antt =====
-- What the keeper is given: the address codec, its store item, the bank keeper and the authority. All
-- of this is code outside the repository, so it is a parameter.
use gnodi.Base.{ap, refl, arith, ℕ, ◌+◌, ◌≡◌, Option, some, ⊤, ◌⊎◌, inl}
use gnodi.Base.Text.{Bytes}
use gnodi.Calendar.{Runtime}
use gnodi.Distro.Params.{Params, SdkTypes}
use gnodi.Distro.Outcome.{Outcome, ok, err, panic, Error}

abbrev pub Action : Type 0 → Type 0 → Type 0
Action S A = S → Outcome A × S

infixl 5 ◌>>=◌ ◌>>◌
abbrev pub ◌>>=◌ : {S A B : Type 0} → Action S A → (A → Action S B) → Action S B
◌>>=◌ m f s =
    let (r, s') = m s in elim r [ ok a ↦ f a s' | err e ↦ (err e, s') | panic ↦ (panic, s') ]

abbrev pub ◌>>◌ : {S A B : Type 0} → Action S A → Action S B → Action S B
m >> k = m >>= λ _. k

abbrev pub lift : {S A : Type 0} → Outcome A → Action S A
lift r s = (r, s)

abbrev pub gets : {S A : Type 0} → (S → A) → Action S A
gets f s = (ok (f s), s)

-- How a call of another keeper or of the store ends.
pub data CallResult : Type 0 where
  done failed panicked : CallResult

abbrev pub result_of : CallResult → Error → Outcome ⊤
result_of done e = ok tt
result_of failed e = err e
result_of panicked e = panic

abbrev pub call : {S : Type 0} → (S → CallResult × S) → Error → Action S ⊤
call f e s = let (r, s') = f s in (result_of r e, s')

-- What `collections.Item.Get` returns: the value, `collections.ErrNotFound`, or another error.
pub data Stored : Type 0 where
  found : Params → Stored
  missing corrupt : Stored

pub record Keeper : Type 1 where
  pub State : Type 0
  pub Coins : Type 0
  pub authority : Bytes
  -- `address.Codec`
  pub string_to_bytes : Bytes → Option Bytes
  pub bytes_to_string : Bytes → Option Bytes
  -- `collections.Item[types.Params]`
  pub params_get : State → Stored
  pub params_set : Params → State → CallResult × State
  -- `GetSupply(ctx, denom).Amount`, `Int.Uint64` (which panics above 64 bits), and
  -- `sdk.NewCoins(sdk.NewCoin(denom, math.NewIntFromUint64(amount)))` (which panics on a bad denom)
  pub get_supply : Bytes → State → ℕ
  pub int_uint64 : ℕ → Option ℕ
  pub new_coins : Bytes → ℕ → Option Coins
  -- `MintCoins` into a module's account, and `SendCoinsFromModuleToAccount`
  pub mint_coins : Bytes → Coins → State → CallResult × State
  pub send_coins : Bytes → Bytes → Coins → State → CallResult × State
  pub sdk : SdkTypes
  -- what Go does not document of float64 and far dates
  pub runtime : Runtime

-- What those parts document: `Uint64` gives the number itself, minting raises the supply of its denom
-- by the coins, sending leaves every supply alone, and the item returns what was set.
module _ (k : Keeper) where
  open k use {
    State, Coins, params_get, params_set, get_supply, int_uint64, new_coins, mint_coins, send_coins,
  }

  pub record IsLawful : Type 0 where
    pub uint64_same : {n m : ℕ} → int_uint64 n ≡ some m → m ≡ n
    pub mint_supply :
        (m d : Bytes) (n : ℕ) (c : Coins) (s s' : State)
        → new_coins d n ≡ some c
        → mint_coins m c s ≡ (done, s')
        → get_supply d s' ≡ get_supply d s + n
    pub mint_params :
        (m : Bytes) (c : Coins) (s s' : State)
        → mint_coins m c s ≡ (done, s')
        → params_get s' ≡ params_get s
    pub send_supply :
        (m a d : Bytes) (c : Coins) (s s' : State)
        → send_coins m a c s ≡ (done, s')
        → get_supply d s' ≡ get_supply d s
    pub send_params :
        (m a : Bytes) (c : Coins) (s s' : State)
        → send_coins m a c s ≡ (done, s')
        → params_get s' ≡ params_get s
    pub set_params :
        (p : Params) (s s' : State) → params_set p s ≡ (done, s') → params_get s' ≡ found p
    pub set_supply :
        (p : Params) (d : Bytes) (s s' : State)
        → params_set p s ≡ (done, s')
        → get_supply d s' ≡ get_supply d s

abbrev pub after : {S A B : Type 0} → Outcome A × S → (A → Action S B) → Outcome B × S
after r f = elim r.0 [ ok a ↦ f a r.1 | err e ↦ (err e, r.1) | panic ↦ (panic, r.1) ]

bind_cases :
    {S A B : Type 0} (r : Outcome A × S) (f : A → Action S B) {b : B} {s' : S}
    → after r f ≡ (ok b, s')
    → (a : A) × (s1 : S) × (r ≡ (ok a, s1)) × (f a s1 ≡ (ok b, s'))
bind_cases (ok a, s1) f h = (a, s1, refl, h)
bind_cases (err e, s1) f h = cc
bind_cases (panic, s1) f h = cc

-- What follows a step that ended well.
pub bind_done :
    {S A B : Type 0} (m : Action S A) (f : A → Action S B) (s : S) {a : A} {s1 : S}
    → m s ≡ (ok a, s1)
    → (m >>= f) s ≡ f a s1
bind_done m f s e = ap (λ r. after r f) e

pub call_done :
    {S : Type 0} (f : S → CallResult × S) (e : Error) (s : S) {s1 : S}
    → f s ≡ (done, s1)
    → call f e s ≡ (ok tt, s1)
call_done f e s h = ap (λ r. (result_of r.0 e, r.1)) h

-- Inversion of steps that ended well.
pub bind-ok :
    {S A B : Type 0} (m : Action S A) (f : A → Action S B) (s : S) {b : B} {s' : S}
    → (m >>= f) s ≡ (ok b, s')
    → (a : A) × (s1 : S) × (m s ≡ (ok a, s1)) × (f a s1 ≡ (ok b, s'))
bind-ok m f s h = bind_cases (m s) f h

pub lift-ok :
    {S A B : Type 0} (s : S) (r : Outcome A) (f : A → Outcome B × S) {b : B} {s' : S}
    → elim r [ ok a ↦ f a | err e ↦ (err e, s) | panic ↦ (panic, s) ] ≡ (ok b, s')
    → (a : A) × (r ≡ ok a) × (f a ≡ (ok b, s'))
lift-ok s (ok a) f h = (a, refl, h)
lift-ok s (err e) f h = cc
lift-ok s panic f h = cc

pub call-ok :
    {S B : Type 0} (r : CallResult × S) (e : Error) (g : Outcome B × S) {b : B} {s' : S}
    → elim (result_of r.0 e) [ ok _ ↦ g | err e ↦ (err e, r.1) | panic ↦ (panic, r.1) ] ≡ (ok b, s')
    → (r ≡ (done, r.1)) × (g ≡ (ok b, s'))
call-ok (done, t) e g h = (refl, h)
call-ok (failed, t) e g h = cc
call-ok (panicked, t) e g h = cc

pub last_call-ok :
    {S : Type 0} (r : CallResult × S) (e : Error) {s' : S}
    → ◌≡◌ {A = Outcome ⊤ × S} (result_of r.0 e, r.1) (ok tt, s')
    → r ≡ (done, s')
last_call-ok (done, t) e h = ground arith
last_call-ok (failed, t) e h = cc
last_call-ok (panicked, t) e h = cc

-- The state was left alone, or the fact `Q` holds.
abbrev pub Untouched : {S : Type 0} → S → Type 0 → S → Type 0
Untouched s Q t = (t ≡ s) ⊎ Q

pub Untouched-lift :
    {S A B Q : Type 0} (s : S) (r : Outcome A) (f : A → Outcome B × S)
    → ((a : A) → r ≡ ok a → Untouched s Q (f a).1)
    → Untouched s Q (after (r, s) (λ a _. f a)).1
Untouched-lift s (ok a) f h = h a refl
Untouched-lift s (err e) f h = inl refl
Untouched-lift s panic f h = inl refl

-- A step that reads only.
pub Untouched-bind :
    {S A B Q : Type 0} (m : Action S A) (f : A → Action S B) (s : S)
    → (m s).1 ≡ s
    → ((a : A) → m s ≡ (ok a, s) → Untouched s Q (f a s).1)
    → Untouched s Q ((m >>= f) s).1
Untouched-bind {S} {A} {B} {Q} m f s h k = by_result (m s) h k
  where
    by_result :
        (r : Outcome A × S)
        → r.1 ≡ s
        → ((a : A) → r ≡ (ok a, s) → Untouched s Q (f a s).1)
        → Untouched s Q (after r f).1
    by_result (ok a, t) h k = rw h (k a (rw h))
    by_result (err e, t) h k = inl h
    by_result (panic, t) h k = inl h

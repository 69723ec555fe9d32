-- ===== src/Base/Action.antt =====
-- Code that changes a state and may stop early: what the outside calls return, and the laws of the
-- sequence and of the loop.
use gnodi.Base.Result.{Result, ok, err}
use gnodi.Base.Tests.{⊤}
use mathlib.Core.Path.{◌≡◌, refl, ap, subst, ◌∙◌}
use mathlib.Core.Option.{Option, none, some}
use mathlib.Core.List.{List, [], ◌∷◌}

abbrev pub Action : Type 0 → Type 0 → Type 0 → Type 0
Action E S A = S → Result E A × S

-- A call of code outside the repository: no value is an error, and the state stays as it was left.
abbrev pub Call : Type 0 → Type 0 → Type 0
Call S A = S → Option A × S

infixl 5 ◌>>=◌ ◌>>◌
abbrev pub ◌>>=◌ : {E S A B : Type 0} → Action E S A → (A → Action E S B) → Action E S B
◌>>=◌ m f s = let (r, s') = m s in elim r [ ok a ↦ f a s' | err e ↦ (err e, s') ]

abbrev pub ◌>>◌ : {E S A B : Type 0} → Action E S A → Action E S B → Action E S B
m >> k = m >>= λ _. k

abbrev pub pure : {E S A : Type 0} → A → Action E S A
pure a s = (ok a, s)

abbrev pub stop : {E S A : Type 0} → E → Action E S A
stop e s = (err e, s)

abbrev pub gets : {E S A : Type 0} → (S → A) → Action E S A
gets f s = (ok (f s), s)

abbrev pub or_error : {E A : Type 0} → Option A → E → Result E A
or_error none e = err e
or_error (some a) e = ok a

-- `if err != nil` after a call, and a call whose error is dropped.
abbrev pub try : {E S A : Type 0} → Call S A → E → Action E S A
try f e s = let (o, s') = f s in (or_error o e, s')

abbrev pub ignore : {E S A : Type 0} → Call S A → Action E S ⊤
ignore f s = (ok tt, (f s).1)

-- A value that was computed without the state.
abbrev pub have : {E S A : Type 0} → Option A → E → Action E S A
have o e s = (or_error o e, s)

unfoldable pub each : {E S A : Type 0} → (A → Action E S ⊤) → List A → Action E S ⊤
each f [] = pure tt
each f (a ∷ l) = f a >> each f l

abbrev follow : {E S A B : Type 0} → Result E A × S → (A → Action E S B) → Result E B × S
follow r f = elim r.0 [ ok a ↦ f a r.1 | err e ↦ (err e, r.1) ]

follow-ok :
    {E S A B : Type 0} (r : Result E A × S) (f : A → Action E S B) {b : B} {s' : S}
    → follow r f ≡ (ok b, s')
    → (a : A) × (s1 : S) × (r ≡ (ok a, s1)) × (f a s1 ≡ (ok b, s'))
follow-ok (ok a, s1) f h = (a, s1, refl, h)
follow-ok (err e, s1) f h = cc

-- Inversion of a sequence that ended well.
pub bind-ok :
    {E S A B : Type 0} (m : Action E S A) (f : A → Action E S B) (s : S) {b : B} {s' : S}
    → (m >>= f) s ≡ (ok b, s')
    → (a : A) × (s1 : S) × (m s ≡ (ok a, s1)) × (f a s1 ≡ (ok b, s'))
bind-ok m f s h = follow-ok (m s) f h

or_error-ok :
    {E A S : Type 0} (r : Option A × S) (e : E) {a : A} {s' : S}
    → ◌≡◌ {A = Result E A × S} (or_error r.0 e, r.1) (ok a, s')
    → r ≡ (some a, s')
or_error-ok (none, s1) e h = cc
or_error-ok (some a, s1) e h = cc

pub try-ok :
    {E S A : Type 0} (f : Call S A) (e : E) (s : S) {a : A} {s' : S}
    → try f e s ≡ (ok a, s')
    → f s ≡ (some a, s')
try-ok f e s h = or_error-ok (f s) e h

pub have-ok :
    {E S A : Type 0} (o : Option A) (e : E) (s : S) {a : A} {s' : S}
    → have o e s ≡ (ok a, s')
    → (o ≡ some a) × (s ≡ s')
have-ok o e s h = let p = or_error-ok (o, s) e h in (ap (λ r. r.0) p, ap (λ r. r.1) p)

-- The rule of the loop: what holds of the elements that are left and the state is kept by a round.
pub each-rule :
    {E S A : Type 0} (f : A → Action E S ⊤) (P : List A → S → Type 0)
    → ((a : A) (l : List A) (s s1 : S) → P (a ∷ l) s → f a s ≡ (ok tt, s1) → P l s1)
    → (l : List A) (s : S) {s' : S} → P l s
    → each f l s ≡ (ok tt, s')
    → P [] s'
unfolding each
each-rule f P step [] s p h = subst (P []) (ap (λ r. r.1) h) p
each-rule f P step (a ∷ l) s p h =
    let (u, s1, e, h1) = bind-ok (f a) (λ _. each f l) s h in
    each-rule f P step l s1 (step a l s s1 p e) h1

-- The same for a call, and for a value that was computed without the state.
pub try-then :
    {E S A B : Type 0} (r : Option A × S) (e : E) (f : A → Result E B × S) {b : B} {s' : S}
    → elim (or_error r.0 e) [ ok a ↦ f a | err e ↦ (err e, r.1) ] ≡ (ok b, s')
    → (a : A) × (r ≡ (some a, r.1)) × (f a ≡ (ok b, s'))
try-then (none, s1) e f h = cc
try-then (some a, s1) e f h = (a, refl, h)

pub have-then :
    {E S A B : Type 0} (s : S) (o : Option A) (e : E) (f : A → Result E B × S) {b : B} {s' : S}
    → elim (or_error o e) [ ok a ↦ f a | err e ↦ (err e, s) ] ≡ (ok b, s')
    → (a : A) × (o ≡ some a) × (f a ≡ (ok b, s'))
have-then s none e f h = cc
have-then s (some a) e f h = (a, refl, h)

-- What no round changes the loop does not change.
pub each-keeps :
    {E S A X : Type 0} (f : A → Action E S ⊤) (look : S → X)
    → ((a : A) (s s1 : S) → f a s ≡ (ok tt, s1) → look s1 ≡ look s)
    → (l : List A) (s : S) {s' : S} → each f l s ≡ (ok tt, s')
    → look s' ≡ look s
each-keeps f look keep l s h =
    each-rule f (λ _ t. look t ≡ look s) (λ a l t t1 p e. keep a t t1 e ∙ p) l s refl h

-- A call whose error is dropped leaves the state of the call.
pub ignore-ok :
    {E S A : Type 0} (f : Call S A) (s : S) {s' : S}
    → ignore {E = E} f s ≡ (ok tt, s')
    → (f s).1 ≡ s'
ignore-ok f s h = ap (λ r. r.1) h

-- The laws of the sequence, from a state on.
pub bind_assoc :
    {E S A B C : Type 0} (m : Action E S A) (f : A → Action E S B) (g : B → Action E S C) (s : S)
    → ((m >>= f) >>= g) s ≡ (m >>= λ a. f a >>= g) s
bind_assoc {E = E} {S = S} {A = A} m f g s = by_result (m s)
  where
    by_result :
        (r : Result E A × S)
        → elim (follow r f).0 [ ok b ↦ g b (follow r f).1 | err e ↦ (err e, (follow r f).1) ]
          ≡ follow r (λ a. f a >>= g)
    by_result (ok a, t) = refl
    by_result (err e, t) = refl

pub >>-cong :
    {E S A B : Type 0} (m n : Action E S A) (k l : Action E S B) (s : S)
    → m s ≡ n s
    → ((t : S) → k t ≡ l t)
    → (m >> k) s ≡ (n >> l) s
>>-cong {E = E} {S = S} {A = A} m n k l s e h = by_result (m s) ∙ ap (λ r. follow r (λ _. l)) e
  where
    by_result : (r : Result E A × S) → follow r (λ _. k) ≡ follow r (λ _. l)
    by_result (ok a, t) = h t
    by_result (err e, t) = refl

-- A sequence whose first part ended well goes on from its state.
pub >>-ok :
    {E S A B : Type 0} (m : Action E S A) (k : Action E S B) (s : S) {a : A} {s1 : S}
    → m s ≡ (ok a, s1)
    → (m >> k) s ≡ k s1
>>-ok m k s h = ap (λ r. follow r (λ _. k)) h

-- A sequence whose first call, or first value, is there.
pub try-some :
    {E S A B : Type 0} (f : Call S A) (e : E) (k : A → Action E S B) (s : S) {a : A} {s1 : S}
    → f s ≡ (some a, s1)
    → (try f e >>= k) s ≡ k a s1
try-some f e k s h = ap (λ r. follow (or_error r.0 e, r.1) k) h

pub have-some :
    {E S A B : Type 0} (o : Option A) (e : E) (k : A → Action E S B) (s : S) {a : A}
    → o ≡ some a
    → (have o e >>= k) s ≡ k a s
have-some o e k s h = ap (λ o. follow (or_error o e, s) k) h

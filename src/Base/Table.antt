-- ===== src/Base/Table.antt =====
-- A loop that rewrites every row of a table in a store: a row that is written replaces those of its
-- key. What the rewriting makes of every row then holds of the whole table.
use mathlib.Core.Path.{◌≡◌, refl}
use mathlib.Core.Logic.{◌⊎◌, inl, inr}
use mathlib.Core.Bool.{Bool, true, false}
use mathlib.Core.Option.{Option, some}
use mathlib.Core.List.{List, [], ◌∷◌, map}
use native.Mathlib.Omega.{arith}
use gnodi.Base.Tests.{⊤, Bool-cases, if◌then◌else◌}
use gnodi.Base.Lists.{All}
use gnodi.Base.Text.{Bytes, bytes_equal, bytes_equal_iff}
use gnodi.Base.Result.{ok}
use gnodi.Base.Action.{Action, each, each-rule}

module _ {Row : Type 0} (key : Row → Bytes) where
  abbrev pub replace : Row → List Row → List Row
  replace r = map (λ x. if bytes_equal (key x) (key r) then r else x)

  has_key : Bytes → List Row → Bool
  has_key k [] = false
  has_key k (r ∷ l) = let rest = has_key k l in if bytes_equal k (key r) then true else rest

  module _ (Q : Row → Type 0) where
    -- Done, or still to come.
    abbrev Pending : List Row → Row → Type 0
    Pending l r = Q r ⊎ (has_key (key r) l ≡ true)

    Pending-replace :
        (r r' : Row) (l : List Row)
        → key r' ≡ key r
        → Q r'
        → (all : List Row) → All (Pending (r ∷ l)) all
        → All (Pending l) (replace r' all)
    unfolding has_key
    Pending-replace r r' l e q [] p = tt
    Pending-replace r r' l e q (x ∷ all) (p, ps) =
        (one x p (Bool-cases (bytes_equal (key x) (key r'))), Pending-replace r r' l e q all ps)
      where
        one :
            (x : Row)
            → Pending (r ∷ l) x
            → (bytes_equal (key x) (key r') ≡ true) ⊎ (bytes_equal (key x) (key r') ≡ false)
            → Pending l (if bytes_equal (key x) (key r') then r' else x)
        one x p (inl h) = rw h (inl q)
        one x (inl p) (inr h) = rw h (inl p)
        one x (inr p) (inr h) = rw h (inr (rw (rw e at h) at p))

    weaken : (r : Row) (l all : List Row) → All (Pending l) all → All (Pending (r ∷ l)) all
    unfolding has_key
    weaken r l [] p = tt
    weaken r l (x ∷ all) (inl p, ps) = (inl p, weaken r l all ps)
    weaken r l (x ∷ all) (inr p, ps) = (inr (ground arith), weaken r l all ps)

    All-Pending : (l : List Row) → All (Pending l) l
    unfolding has_key
    All-Pending [] = tt
    All-Pending (r ∷ l) =
        (inr (rw ((bytes_equal_iff (key r) (key r)).1 refl)), weaken r l l (All-Pending l))

    none-Pending : (all : List Row) → All (Pending []) all → All Q all
    unfolding has_key
    none-Pending [] p = tt
    none-Pending (x ∷ all) (inl p, ps) = (p, none-Pending all ps)
    none-Pending (x ∷ all) (inr p, ps) = cc

    module _ {S : Type 0} (rows : S → Option (List Row)) where
      abbrev pub Holds : S → Type 0
      Holds s = (all : List Row) × (rows s ≡ some all) × All Q all

      abbrev Half : List Row → S → Type 0
      Half l s = (all : List Row) × (rows s ≡ some all) × All (Pending l) all

      -- A loop over all rows, of which a round writes a row of the same key with `Q`.
      pub each-Holds :
          {E : Type 0} (f : Row → Row) (g : Row → Action E S ⊤)
          → ((r : Row) → key (f r) ≡ key r)
          → ((r : Row) → Q (f r))
          → ((r : Row) (all : List Row) (s s' : S)
              → rows s ≡ some all
              → g r s ≡ (ok tt, s')
              → rows s' ≡ some (replace (f r) all))
          → (all : List Row) (s : S) {s' : S} → rows s ≡ some all
          → each g all s ≡ (ok tt, s')
          → Holds s'
      each-Holds {E = E} f g same made written all s e h =
          let (final, e', p) = each-rule g Half round all s (all, e, All-Pending all) h in
          (final, e', none-Pending final p)
        where
          round :
              (r : Row) (l : List Row) (s s1 : S) → Half (r ∷ l) s → g r s ≡ (ok tt, s1) → Half l s1
          round r l s s1 (all, e, p) h = (
            replace (f r) all,
            written r all s s1 e h,
            Pending-replace r (f r) l (same r) (made r) all p,
          )

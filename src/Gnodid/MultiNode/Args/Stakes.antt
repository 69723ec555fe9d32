-- ===== src/Gnodid/MultiNode/Args/Stakes.antt =====
-- The map of stakes that the loop over the flag's pieces builds, against a list.
use gnodi.Base.{
  ap, refl, ◌∙◌, arith, ℕ, zero, suc, ◌+◌, ◌≤◌, ◌<◌, ◌≡◌, List, [], ◌∷◌, Option, some, none,
  get_elem?,
}
use gnodi.Base.Text.{Bytes}
use gnodi.Base.Result.{Result, ok, err}
use gnodi.Base.Int.{ℤ}
use gnodi.Gnodid.MultiNode.Env.{Env, InitError}
use gnodi.Gnodid.MultiNode.Args.{parse_stakes, bond_coin, assign, no_entries}

module _ (k : Env) where
  open k use {Coin, new_int_from_string, new_coin, default_bond_denom}

  ok_injective :
      {f m : ℕ → Option Coin} → ◌≡◌ {A = Result InitError (ℕ → Option Coin)} (ok f) (ok m) → m ≡ f
  ok_injective h = cc

  -- The pieces that are numbers, in their order.
  abbrev pub amounts : List Bytes → List ℤ
  amounts [] = []
  amounts (piece ∷ l) = elim (new_int_from_string piece) [
    | none ↦ amounts l
    | some a ↦ a ∷ amounts l
  ]

  abbrev pub coin_of : Option ℤ → Option Coin
  coin_of none = none
  coin_of (some a) = new_coin default_bond_denom a

  bond_coin-ok :
      (a : ℤ) {coin : Coin} → bond_coin k a ≡ ok coin → new_coin default_bond_denom a ≡ some coin
  unfolding bond_coin
  bond_coin-ok a h = ground arith

  -- Above `top` the map gives the coins of the amounts, and below it what it gave before.
  record Extends (found : List ℤ) (top : ℕ) (stakes m : ℕ → Option Coin) : Type 0 where
    kept : (i : ℕ) → i < top → m i ≡ stakes i
    added : (i : ℕ) → m (top + i) ≡ coin_of (get_elem? found i)

  abbrev IsFree : ℕ → (ℕ → Option Coin) → Type 0
  IsFree top stakes = (i : ℕ) → top ≤ i → stakes i ≡ none

  abbrev IsRight : List Bytes → Type 0
  IsRight l =
      (top : ℕ) (stakes m : ℕ → Option Coin)
      → IsFree top stakes
      → parse_stakes k l top stakes ≡ ok m
      → Extends (amounts l) top stakes m

  assign-IsFree :
      (top : ℕ) (coin : Coin) (stakes : ℕ → Option Coin)
      → IsFree top stakes
      → IsFree (suc top) (assign top coin stakes)
  assign-IsFree top coin stakes free i h = ground (arith, free i (omega arith))

  Extends-assign :
      (a : ℤ) (coin : Coin) (found : List ℤ) (top : ℕ) (stakes m : ℕ → Option Coin)
      → new_coin default_bond_denom a ≡ some coin
      → Extends found (suc top) (assign top coin stakes) m
      → Extends (a ∷ found) top stakes m
  Extends-assign a coin found top stakes m e x = record {
    kept = λ i h. ground (arith, x.kept i (omega arith));
    added = λ i. at i;
  }
    where
      at : (i : ℕ) → m (top + i) ≡ coin_of (get_elem? (a ∷ found) i)
      at zero = ap m (omega arith) ∙ x.kept top (omega arith) ∙ ground (arith, e)
      at (suc i) = ap m (omega arith) ∙ x.added i

  with_coin :
      (a : ℤ) (r : Result InitError Coin) (l : List Bytes) (top : ℕ) (stakes m : ℕ → Option Coin)
      → IsRight l
      → IsFree top stakes
      → bond_coin k a ≡ r
      → elim r [ err e ↦ err e | ok coin ↦ parse_stakes k l (suc top) (assign top coin stakes) ]
        ≡ ok m
      → Extends (a ∷ amounts l) top stakes m
  with_coin a (ok coin) l top stakes m right free e h =
      Extends-assign a coin (amounts l) top stakes m (bond_coin-ok a e)
        (right (suc top) (assign top coin stakes) m (assign-IsFree top coin stakes free) h)
  with_coin a (err x) l top stakes m right free e h = cc

  with_amount :
      (o : Option ℤ) (l : List Bytes) (top : ℕ) (stakes m : ℕ → Option Coin)
      → IsRight l
      → IsFree top stakes
      → elim o [
        | none ↦ parse_stakes k l top stakes
        | some a ↦ elim (bond_coin k a) [
          | err e ↦ err e
          | ok coin ↦ parse_stakes k l (suc top) (assign top coin stakes)
        ]
      ]
        ≡ ok m
      → Extends (elim o [ none ↦ amounts l | some a ↦ a ∷ amounts l ]) top stakes m
  with_amount none l top stakes m right free h = right top stakes m free h
  with_amount (some a) l top stakes m right free h =
      with_coin a (bond_coin k a) l top stakes m right free refl h

  parse_stakes-Extends : (l : List Bytes) → IsRight l
  unfolding parse_stakes
  parse_stakes-Extends [] top stakes m free h = record {
    kept = λ i l. ap (λ f. f i) (ok_injective h);
    added = λ i. ap (λ f. f (top + i)) (ok_injective h) ∙ free (top + i) (omega arith);
  }
  parse_stakes-Extends (piece ∷ l) top stakes m free h =
      with_amount (new_int_from_string piece) l top stakes m (parse_stakes-Extends l) free h

  -- If the loop over the pieces of the stakes ends well, the map holds at each index the coin of
  -- the amount at that index among the pieces that are numbers, and nothing from their count on.
  pub parse_stakes_lem :
      (pieces : List Bytes) (m : ℕ → Option Coin)
      → parse_stakes k pieces 0 no_entries ≡ ok m
      → (i : ℕ) → m i ≡ coin_of (get_elem? (amounts pieces) i)
  parse_stakes_lem pieces m h i =
      ap m (omega arith) ∙ (parse_stakes-Extends pieces 0 no_entries m (λ j l. refl) h).added i

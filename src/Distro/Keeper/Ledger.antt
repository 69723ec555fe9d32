-- ===== src/Distro/Keeper/Ledger.antt =====
-- What the module promises, without its messages: a book of parameters and supplies, and the steps
-- that it may take. The messages of the keeper refine it.
use gnodi.Base.{ap, refl, sym, subst, ◌∙◌, ℕ, ◌+◌, ◌≤◌, ◌≡◌, List, [], ◌∷◌, inl, inr}
use gnodi.Base.Text.{Bytes}
use gnodi.Distro.Params.{Params, SdkTypes}
use gnodi.Distro.Params.Validity.{IsValid}
use gnodi.Distro.Keeper.Env.{Keeper, IsLawful, found}
use gnodi.Distro.Keeper.{mint, update_params}
use gnodi.Distro.Keeper.Mint.{Minted, mint-Minted}
use gnodi.Distro.Keeper.Update.{update_params-Updated}
use gnodi.Distro.Keeper.Trace.{
  Call, minting, updating, deliver, deliver_all, committed, committed_cases, found_inj,
}

pub record Book : Type 0 where
  pub params : Params
  pub supply : Bytes → ℕ

-- Coins of the denomination are issued up to the maximum and the parameters stay, or valid parameters
-- come in and every supply stays.
pub data Step (sdk : SdkTypes) : Book → Book → Type 0 where
  issue :
      {l m : Book} (amount : ℕ)
      → l.supply l.params.denom + amount ≤ l.params.max_supply
      → m.supply l.params.denom ≡ l.supply l.params.denom + amount
      → m.params ≡ l.params
      → Step sdk l m
  govern :
      {l m : Book} → IsValid sdk m.params → ((d : Bytes) → m.supply d ≡ l.supply d) → Step sdk l m

pub data Reach (sdk : SdkTypes) : Book → Book → Type 0 where
  stay : {l : Book} → Reach sdk l l
  step : {l m n : Book} → Step sdk l m → Reach sdk m n → Reach sdk l n

module _ (k : Keeper) where
  open k use {State, params_get, get_supply, sdk}

  -- The book shows the parameters that are stored and the supplies of the bank.
  pub record IsView (s : State) (l : Book) : Type 0 where
    pub stored : params_get s ≡ found l.params
    pub supplies : (d : Bytes) → get_supply d s ≡ l.supply d

  abbrev pub book : Params → State → Book
  book p s = record { params = p; supply = λ d. get_supply d s }

  book-IsView : (p : Params) (s : State) → params_get s ≡ found p → IsView s (book p s)
  book-IsView p s e = record { stored = e; supplies = λ d. refl }

  module _ (laws : IsLawful k) where
    -- A message that ended well is a step of the ledger, and any other leaves it.
    deliver-Reach :
        (c : Call) (p : Params) (s : State)
        → params_get s ≡ found p
        → (q : Params) × (params_get (deliver k c s) ≡ found q)
          × ((m : Book) → Reach sdk (book q (deliver k c s)) m → Reach sdk (book p s) m)
    unfolding deliver
    deliver-Reach (minting t msg) p s e = elim (committed_cases (mint k t msg s) s) [
      | inl same ↦ (p, ap params_get same ∙ e, λ m. subst (λ x. Reach sdk (book p x) m) same)
      | inr h ↦
          let s' = committed (mint k t msg s) s in
          let (q, done) = mint-Minted k laws t msg s s' h in
          let minted = subst (Minted k t msg s s') (found_inj (sym done.stored ∙ e)) done in
          (p, minted.kept, λ m. step (issue msg.amount minted.under_maximum minted.supply refl))
    ]
    deliver-Reach (updating req) p s e = elim (committed_cases (update_params k req s) s) [
      | inl same ↦ (p, ap params_get same ∙ e, λ m. subst (λ x. Reach sdk (book p x) m) same)
      | inr h ↦
          let u = update_params-Updated k laws req s (committed (update_params k req s) s) h in
          (req.params, u.stored, λ m. step (govern u.allowed.1 u.supplies))
    ]

    -- On a keeper that is lawful, from a state that holds parameters: whatever `Mint` and
    -- `UpdateParams` messages arrive, the book of the last state, its parameters and supplies, is
    -- one that the book of the first state reaches by issues of the denomination under the
    -- maximum, which leave the parameters, and by changes to valid parameters, which leave every
    -- supply.
    pub deliver_all-Reach :
        (cs : List Call) (p : Params) (s : State)
        → params_get s ≡ found p
        → (last : Book) × IsView (deliver_all k cs s) last × Reach sdk (book p s) last
    unfolding deliver_all
    deliver_all-Reach [] p s e = (book p s, book-IsView p s e, stay)
    deliver_all-Reach (c ∷ cs) p s e =
        let (q, stored, before) = deliver-Reach c p s e in
        let (last, view, r) = deliver_all-Reach cs q (deliver k c s) stored in
        (last, view, before last r)

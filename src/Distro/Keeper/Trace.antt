-- ===== src/Distro/Keeper/Trace.antt =====
-- Sequences of messages. The SDK keeps the writes of a message that ended well and drops those of one
-- that did not.
use gnodi.Base.{ap, subst, ℕ, ◌+◌, ◌≤◌, ◌≡◌, refl, sym, ◌∙◌, arith, List, [], ◌∷◌, ⊤, ◌⊎◌, inl, inr}
use gnodi.Calendar.{Date}
use gnodi.Distro.Params.{Params}
use gnodi.Distro.Params.Validity.{IsValid}
use gnodi.Distro.Outcome.{Outcome, ok, err, panic}
use gnodi.Distro.Keeper.Env.{Keeper, IsLawful, found}
use gnodi.Distro.Keeper.{MsgMint, MsgUpdateParams, mint, update_params}
use gnodi.Distro.Keeper.Mint.{Minted, mint-Minted}
use gnodi.Distro.Keeper.Update.{update_params-Updated}

abbrev pub committed : {S : Type 0} → Outcome ⊤ × S → S → S
committed r s = elim r.0 [ ok _ ↦ r.1 | err _ ↦ s | panic ↦ s ]

pub committed_cases :
    {S : Type 0} (r : Outcome ⊤ × S) (s : S) → (committed r s ≡ s) ⊎ (r ≡ (ok tt, committed r s))
committed_cases (ok _, t) s = inr refl
committed_cases (err e, t) s = inl refl
committed_cases (panic, t) s = inl refl

abbrev spent : {S : Type 0} → Outcome ⊤ × S → ℕ → ℕ
spent r n = elim r.0 [ ok _ ↦ n | err _ ↦ 0 | panic ↦ 0 ]

pub found_inj : {p q : Params} → found p ≡ found q → p ≡ q
found_inj h = cc

-- A message, a mint with the date of its block.
pub data Call : Type 0 where
  minting : Date → MsgMint → Call
  updating : MsgUpdateParams → Call

module _ (k : Keeper) where
  open k use {State, params_get, get_supply, sdk}

  unfoldable pub deliver : Call → State → State
  deliver (minting t msg) s = committed (mint k t msg s) s
  deliver (updating req) s = committed (update_params k req s) s

  unfoldable pub deliver_all : List Call → State → State
  deliver_all [] s = s
  deliver_all (c ∷ cs) s = deliver_all cs (deliver c s)

  -- Mints one after another, and the sum of those that ended well.
  unfoldable pub mint_all : List (Date × MsgMint) → State → State
  mint_all [] s = s
  mint_all ((t, msg) ∷ ms) s = mint_all ms (committed (mint k t msg s) s)

  unfoldable pub minted_sum : List (Date × MsgMint) → State → ℕ
  minted_sum [] s = 0
  minted_sum ((t, msg) ∷ ms) s =
      let r = mint k t msg s in spent r msg.amount + minted_sum ms (committed r s)

  -- The store holds parameters that `Params.Validate` accepts.
  abbrev pub HoldsValid : State → Type 0
  HoldsValid s = (p : Params) × (params_get s ≡ found p) × IsValid sdk p

  -- The parameters `p` are stored and the supply is no more than they allow.
  pub record IsCapped (p : Params) (s : State) : Type 0 where
    pub stored : params_get s ≡ found p
    pub below : get_supply p.denom s ≤ p.max_supply

  module _ (laws : IsLawful k) where
    deliver-HoldsValid : (c : Call) (s : State) → HoldsValid s → HoldsValid (deliver c s)
    unfolding deliver
    deliver-HoldsValid (minting t msg) s (p, e, v) = elim (committed_cases (mint k t msg s) s) [
      | inl same ↦ (p, ap params_get same ∙ e, v)
      | inr h ↦
          let (q, m) = mint-Minted k laws t msg s (committed (mint k t msg s) s) h in
          (p, m.kept ∙ sym m.stored ∙ e, v)
    ]
    deliver-HoldsValid (updating req) s v = elim (committed_cases (update_params k req s) s) [
      | inl same ↦ subst HoldsValid (sym same) v
      | inr h ↦
          let u = update_params-Updated k laws req s (committed (update_params k req s) s) h in
          (req.params, u.stored, u.allowed.1)
    ]

    -- On a keeper that is lawful, from a state that holds valid parameters: whatever `Mint` and
    -- `UpdateParams` messages arrive, the stored parameters stay valid.
    pub deliver_all-HoldsValid :
        (cs : List Call) (s : State) → HoldsValid s → HoldsValid (deliver_all cs s)
    unfolding deliver_all
    deliver_all-HoldsValid [] s v = v
    deliver_all-HoldsValid (c ∷ cs) s v =
        deliver_all-HoldsValid cs (deliver c s) (deliver-HoldsValid c s v)

    -- One mint, which may fail, from a state that holds `p`.
    mint_step :
        (t : Date) (msg : MsgMint) (p : Params) (s : State)
        → IsCapped p s
        → IsCapped p (committed (mint k t msg s) s)
          × (get_supply p.denom (committed (mint k t msg s) s)
              ≡ get_supply p.denom s + spent (mint k t msg s) msg.amount)
    mint_step t msg p s c = by_outcome (mint k t msg s) (λ s' h. mint-Minted k laws t msg s s' h)
      where
        by_outcome :
            (r : Outcome ⊤ × State)
            → ((s' : State) → r ≡ (ok tt, s') → (q : Params) × Minted k t msg s s' q)
            → IsCapped p (committed r s)
              × (get_supply p.denom (committed r s) ≡ get_supply p.denom s + spent r msg.amount)
        by_outcome (ok _, s') h =
            let (q, m) = h s' refl in
            let same = found_inj (sym m.stored ∙ c.stored) in
            let n = subst (Minted k t msg s s') same m in
            (record { stored = n.kept; below = rw n.supply n.under_maximum }, n.supply)
        by_outcome (err e, s') h = (c, ground arith)
        by_outcome (panic, s') h = (c, ground arith)

    -- On a keeper that is lawful, from a state that holds the parameters and no more than their
    -- maximum supply: however many mints arrive, the parameters stay, the supply of their
    -- denomination grows by exactly the amounts of those that ended well, and it never exceeds the
    -- maximum.
    pub mint_all-IsCapped :
        (ms : List (Date × MsgMint)) (p : Params) (s : State)
        → IsCapped p s
        → IsCapped p (mint_all ms s)
          × (get_supply p.denom (mint_all ms s) ≡ get_supply p.denom s + minted_sum ms s)
    unfolding mint_all minted_sum
    mint_all-IsCapped [] p s c = (c, omega arith)
    mint_all-IsCapped ((t, msg) ∷ ms) p s c =
        let (c1, e1) = mint_step t msg p s c in
        let (c2, e2) = mint_all-IsCapped ms p (committed (mint k t msg s) s) c1 in
        (c2, omega (arith, e1, e2))

-- ===== src/App/Export/ZeroHeight.antt =====
-- The stores after the preparation for height 0.
use gnodi.Base.{refl, subst, ℕ, ◌≡◌, ◌≢◌, Bool, List, [], ◌∷◌, some, All}
use gnodi.Base.Text.{Bytes}
use gnodi.Base.Result.{ok}
use gnodi.Base.Action.{try-ok, have-then, ignore-ok}
use gnodi.Base.Table.{replace, Holds, each-Holds}
use gnodi.App.Export.Env.{Keepers, Entry, Redelegation, Unbonding, Validator, SigningInfo, panicked}
use gnodi.App.Export.{
  zero_entries, reset_redelegation, reset_all_redelegations, reset_unbonding, reset_all_unbondings,
  reset_signing_info, reset_all_signing_infos,
}

abbrev pub IsZeroed : {R : Type 0} → List (Entry R) → Type 0
IsZeroed es = All (λ e. e.creation_height ≡ 0) es

zero_entries-IsZeroed : {R : Type 0} (es : List (Entry R)) → IsZeroed (zero_entries es)
zero_entries-IsZeroed [] = tt
zero_entries-IsZeroed (e ∷ es) = (refl, zero_entries-IsZeroed es)

module _ (k : Keepers) where
  open k use {
    State, Rest, val_address_to_string, redelegations, set_redelegation, unbondings, set_unbonding,
  }
  open k use {
    validator_keys, get_validator, set_validator, close_iterator, apply_validator_updates,
    signing_infos, set_signing_info,
  }

  -- What the stores document: a row that is set replaces the one of its key, setting a signing info does
  -- not fail, and the tables are apart from each other.
  pub record IsStore : Type 0 where
    pub redelegation_set :
        (r : Redelegation Rest) (all : List (Redelegation Rest)) (s s' : State)
        → redelegations s ≡ some all
        → set_redelegation r s ≡ (some tt, s')
        → redelegations s' ≡ some (replace (λ x. x.key) r all)
    pub unbonding_set :
        (r : Unbonding Rest) (all : List (Unbonding Rest)) (s s' : State)
        → unbondings s ≡ some all
        → set_unbonding r s ≡ (some tt, s')
        → unbondings s' ≡ some (replace (λ x. x.key) r all)
    pub signing_set :
        (r : SigningInfo Rest) (all : List (SigningInfo Rest)) (s : State)
        → signing_infos s ≡ some all
        → signing_infos (set_signing_info r s).1 ≡ some (replace (λ x. x.address) r all)
    pub validator_set :
        (key : Bytes) (v : Validator Rest) (h : ℕ) (j : Bool) (s s' : State)
        → get_validator key s ≡ some v
        → set_validator (record v { unbonding_height = h; jailed = j }) s ≡ (some tt, s')
        → (get_validator key s' ≡ some (record v { unbonding_height = h; jailed = j }))
          × ((other : Bytes) → other ≢ key → get_validator other s' ≡ get_validator other s)
    pub redelegations_apart :
        (s : State)
        → ((r : Unbonding Rest) → redelegations (set_unbonding r s).1 ≡ redelegations s)
          × ((v : Validator Rest) → redelegations (set_validator v s).1 ≡ redelegations s)
          × (redelegations (apply_validator_updates s).1 ≡ redelegations s)
          × ((i : SigningInfo Rest) → redelegations (set_signing_info i s).1 ≡ redelegations s)
    pub unbondings_apart :
        (s : State)
        → ((v : Validator Rest) → unbondings (set_validator v s).1 ≡ unbondings s)
          × (unbondings (apply_validator_updates s).1 ≡ unbondings s)
          × ((i : SigningInfo Rest) → unbondings (set_signing_info i s).1 ≡ unbondings s)

  abbrev pub RedelegationsZero : State → Type 0
  RedelegationsZero = Holds (λ x. x.key) (λ r. IsZeroed r.entries) redelegations

  abbrev pub UnbondingsZero : State → Type 0
  UnbondingsZero = Holds (λ x. x.key) (λ r. IsZeroed r.entries) unbondings

  abbrev pub SigningInfosZero : State → Type 0
  SigningInfosZero = Holds (λ x. x.address) (λ r. r.start_height ≡ 0) signing_infos

  module _ (store : IsStore) where
    pub redelegations-zero :
        (s : State) {s' : State} → reset_all_redelegations k s ≡ (ok tt, s') → RedelegationsZero s'
    unfolding reset_all_redelegations reset_redelegation
    redelegations-zero s h =
        let (all, e, h1) = have-then s (redelegations s) panicked _ h in
        each-Holds (λ x. x.key) (λ r. IsZeroed r.entries) redelegations
          (λ r. record r { entries = zero_entries r.entries }) (reset_redelegation k) (λ r. refl)
          (λ r. zero_entries-IsZeroed r.entries) written all s e h1
      where
        written :
            (r : Redelegation Rest) (all : List (Redelegation Rest)) (s s' : State)
            → redelegations s ≡ some all
            → reset_redelegation k r s ≡ (ok tt, s')
            → redelegations s'
              ≡ some (replace (λ x. x.key) (record r { entries = zero_entries r.entries }) all)
        written r all s s' e h =
            store.redelegation_set (record r { entries = zero_entries r.entries }) all s s' e
              (try-ok (set_redelegation (record r { entries = zero_entries r.entries })) panicked s
                h)

    pub unbondings-zero :
        (s : State) {s' : State} → reset_all_unbondings k s ≡ (ok tt, s') → UnbondingsZero s'
    unfolding reset_all_unbondings reset_unbonding
    unbondings-zero s h =
        let (all, e, h1) = have-then s (unbondings s) panicked _ h in
        each-Holds (λ x. x.key) (λ r. IsZeroed r.entries) unbondings
          (λ r. record r { entries = zero_entries r.entries }) (reset_unbonding k) (λ r. refl)
          (λ r. zero_entries-IsZeroed r.entries) written all s e h1
      where
        written :
            (r : Unbonding Rest) (all : List (Unbonding Rest)) (s s' : State)
            → unbondings s ≡ some all
            → reset_unbonding k r s ≡ (ok tt, s')
            → unbondings s'
              ≡ some (replace (λ x. x.key) (record r { entries = zero_entries r.entries }) all)
        written r all s s' e h =
            store.unbonding_set (record r { entries = zero_entries r.entries }) all s s' e
              (try-ok (set_unbonding (record r { entries = zero_entries r.entries })) panicked s h)

    pub signing_infos-zero :
        (s : State) {s' : State} → reset_all_signing_infos k s ≡ (ok tt, s') → SigningInfosZero s'
    unfolding reset_all_signing_infos reset_signing_info
    signing_infos-zero s h =
        let (all, e, h1) = have-then s (signing_infos s) panicked _ h in
        each-Holds (λ x. x.address) (λ r. r.start_height ≡ 0) signing_infos
          (λ r. record r { start_height = 0 }) (reset_signing_info k) (λ r. refl) (λ r. refl)
          written all s e h1
      where
        written :
            (r : SigningInfo Rest) (all : List (SigningInfo Rest)) (s s' : State)
            → signing_infos s ≡ some all
            → reset_signing_info k r s ≡ (ok tt, s')
            → signing_infos s' ≡ some (replace (λ x. x.address) (record r { start_height = 0 }) all)
        written r all s s' e h =
            subst
              (λ t.
                signing_infos t
                ≡ some (replace (λ x. x.address) (record r { start_height = 0 }) all))
              (ignore-ok (set_signing_info (record r { start_height = 0 })) s h)
              (store.signing_set (record r { start_height = 0 }) all s e)

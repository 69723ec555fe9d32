-- ===== src/App/Export/Prepared.antt =====
-- What the whole preparation for height 0 leaves behind.
use gnodi.Base.{ap, sym, ◌∙◌, ℕ, ◌≡◌, Bool, true, false, Bool-cases, inl, inr, List, ⊤, Option, All}
use gnodi.Base.Text.{Bytes}
use gnodi.Base.Result.{ok}
use gnodi.Base.Action.{Action, Call, bind-ok, try, try-ok, have-then, each-keeps, >>-ok, ◌>>◌}
use gnodi.Base.Table.{Holds}
use gnodi.App.Export.Env.{Keepers, Failure, panicked}
use gnodi.App.Export.{
  zero_entries, reset, reset_validator, reset_all_validators, reset_all_redelegations,
  reset_unbonding, reset_all_unbondings, reset_signing_info, reset_all_signing_infos, finish,
  prep_for_zero_height_genesis,
}
use gnodi.App.Export.{check_allowed, handle_distribution}
use gnodi.App.Export.ZeroHeight.{
  IsZeroed, IsStore, RedelegationsZero, UnbondingsZero, SigningInfosZero, redelegations-zero,
  unbondings-zero, signing_infos-zero,
}
use gnodi.App.Export.Validators.{IsReset, reset_all_validators-IsReset}

module _ (k : Keepers) (allowed : List Bytes) where
  open k use {
    State, Rest, redelegations, unbondings, validator_keys, set_unbonding, set_validator,
    set_signing_info, close_iterator, apply_validator_updates, signing_infos,
  }

  -- The steps before the loop over the validators.
  abbrev pub first_steps : ℕ → Action Failure State ⊤
  first_steps height =
      check_allowed k allowed
      >> handle_distribution k height
      >> reset_all_redelegations k
      >> reset_all_unbondings k

  -- A preparation from `s` to `s'`: the state that its loop over the validators starts from and the one
  -- it leaves, and what holds then and in the end.
  pub record Prepared (height : ℕ) (s s' : State) : Type 0 where
    pub before : State
    pub staked : State
    pub started : first_steps height s ≡ (ok tt, before)
    pub looped : reset_all_validators k allowed before ≡ (ok tt, staked)
    pub validators : All (λ key. IsReset k allowed before key staked) (validator_keys before)
    pub ended : finish k staked ≡ (ok tt, s')
    pub redelegations_zero : RedelegationsZero k s'
    pub unbondings_zero : UnbondingsZero k s'
    pub signing_infos_zero : close_iterator staked ≡ true → SigningInfosZero k s'

  same_rows :
      {Row : Type 0} (rows : State → Option (List Row)) (key : Row → Bytes) (Q : Row → Type 0)
      {s s' : State}
      → rows s' ≡ rows s
      → Holds key Q rows s
      → Holds key Q rows s'
  same_rows rows key Q e (all, h, p) = (all, e ∙ h, p)

  -- A call that leaves what `look` shows, and the state that it returned.
  moved :
      {A X : Type 0} (look : State → X) (f : Call State A) (s : State) {o : Option A} {s' : State}
      → f s ≡ (o, s')
      → look (f s).1 ≡ look s
      → look s' ≡ look s
  moved look f s e same = sym (ap (λ r. look r.1) e) ∙ same

  module _ (store : IsStore k) where
    -- The loops that follow leave the redelegations and the unbondings alone.
    unbondings-keep :
        (s : State) {s' : State}
        → reset_all_unbondings k s ≡ (ok tt, s')
        → redelegations s' ≡ redelegations s
    unfolding reset_all_unbondings reset_unbonding
    unbondings-keep s h =
        let (all, e, h1) = have-then s (unbondings s) panicked _ h in
        each-keeps (reset_unbonding k) redelegations
          (λ r t t1 e1.
            let w = record r { entries = zero_entries r.entries } in
            moved redelegations (set_unbonding w) t (try-ok (set_unbonding w) panicked t e1)
              ((store.redelegations_apart t).0 w))
          all s h1

    validator-keeps :
        (key : Bytes) (s : State) {s' : State}
        → reset_validator k allowed key s ≡ (ok tt, s')
        → (redelegations s' ≡ redelegations s) × (unbondings s' ≡ unbondings s)
    unfolding reset_validator
    validator-keeps key s h =
        let (v, e, h1) = have-then s (k.get_validator key s) panicked _ h in
        let (addr, e1, h2) = have-then s (k.val_address_to_string key) panicked _ h1 in
        let w = try-ok (set_validator (reset allowed addr v)) panicked s h2 in
        (
          moved redelegations (set_validator (reset allowed addr v)) s w
              ((store.redelegations_apart s).1 (reset allowed addr v)),
          moved unbondings (set_validator (reset allowed addr v)) s w
              ((store.unbondings_apart s).0 (reset allowed addr v)),
        )

    validators-keep :
        (s : State) {s' : State}
        → reset_all_validators k allowed s ≡ (ok tt, s')
        → (redelegations s' ≡ redelegations s) × (unbondings s' ≡ unbondings s)
    unfolding reset_all_validators
    validators-keep s h = (
      each-keeps (reset_validator k allowed) redelegations
          (λ key t t1 e. (validator-keeps key t e).0) (validator_keys s) s h,
      each-keeps (reset_validator k allowed) unbondings (λ key t t1 e. (validator-keeps key t e).1)
          (validator_keys s) s h,
    )

    signing-keeps :
        (s : State) {s' : State}
        → reset_all_signing_infos k s ≡ (ok tt, s')
        → (redelegations s' ≡ redelegations s) × (unbondings s' ≡ unbondings s)
    unfolding reset_all_signing_infos reset_signing_info
    signing-keeps s h =
        let (all, e, h1) = have-then s (signing_infos s) panicked _ h in
        (
          each-keeps (reset_signing_info k) redelegations
              (λ r t t1 e1.
                sym (ap redelegations (ap (λ r. r.1) e1))
                ∙ (store.redelegations_apart t).3 (record r { start_height = 0 }))
              all s h1,
          each-keeps (reset_signing_info k) unbondings
              (λ r t t1 e1.
                sym (ap unbondings (ap (λ r. r.1) e1))
                ∙ (store.unbondings_apart t).2 (record r { start_height = 0 }))
              all s h1,
        )

    finish-keeps :
        (s : State) {s' : State}
        → finish k s ≡ (ok tt, s')
        → (redelegations s' ≡ redelegations s)
          × (unbondings s' ≡ unbondings s)
          × (close_iterator s ≡ true → SigningInfosZero k s')
    unfolding finish
    finish-keeps s h = elim (Bool-cases (close_iterator s)) [
      | inl e ↦ closed e (rw e at h)
      | inr e ↦
          let same = ap (λ r. r.1) (rw e at h) in
          (ap redelegations (sym same), ap unbondings (sym same), λ f. absurd (unlike e f))
    ]
      where
        unlike : {b : Bool} → b ≡ false → b ≡ true → ⊥
        unlike e f = cc

        closed :
            {s' : State}
            → close_iterator s ≡ true
            → (try apply_validator_updates panicked >> reset_all_signing_infos k) s ≡ (ok tt, s')
            → (redelegations s' ≡ redelegations s)
              × (unbondings s' ≡ unbondings s)
              × (close_iterator s ≡ true → SigningInfosZero k s')
        closed e h =
            let (u, s1, e1, h1) =
              bind-ok (try apply_validator_updates panicked) (λ _. reset_all_signing_infos k) s h in
            let w = try-ok apply_validator_updates panicked s e1 in
            let (kr, ku) = signing-keeps s1 h1 in
            (
              kr ∙ moved redelegations apply_validator_updates s w (store.redelegations_apart s).2,
              ku ∙ moved unbondings apply_validator_updates s w (store.unbondings_apart s).1,
              λ _. signing_infos-zero k store s1 h1,
            )

    through :
        (height : ℕ) (s : State) {s0 s1 s2 s3 : State}
        → check_allowed k allowed s ≡ (ok tt, s0)
        → handle_distribution k height s0 ≡ (ok tt, s1)
        → reset_all_redelegations k s1 ≡ (ok tt, s2)
        → reset_all_unbondings k s2 ≡ (ok tt, s3)
        → first_steps height s ≡ (ok tt, s3)
    through height s e0 e1 e2 e3 =
        let fees : Action Failure State ⊤ = handle_distribution k height in
        let two : Action Failure State ⊤ = check_allowed k allowed >> fees in
        let three : Action Failure State ⊤ = two >> reset_all_redelegations k in
        let h2 = >>-ok (check_allowed k allowed) fees s e0 ∙ e1 in
        let h3 = >>-ok two (reset_all_redelegations k) s h2 ∙ e2 in
        >>-ok three (reset_all_unbondings k) s h3 ∙ e3

    -- On stores that hold what is set: a preparation for height 0 that ended well leaves every
    -- redelegation and unbonding delegation with creation heights 0. Its loop over the validators
    -- starts from the state that the steps before it left, and what it leaves has each of the
    -- validators of that state reset. If the iterator closed, every signing info has start height
    -- 0 in the end.
    pub prep-Prepared :
        (height : ℕ) (s s' : State)
        → prep_for_zero_height_genesis k height allowed s ≡ (ok tt, s')
        → Prepared height s s'
    unfolding prep_for_zero_height_genesis
    prep-Prepared height s s' h =
        let last : Action Failure State ⊤ = finish k in
        let vals : Action Failure State ⊤ = reset_all_validators k allowed >> last in
        let ubds : Action Failure State ⊤ = reset_all_unbondings k >> vals in
        let reds : Action Failure State ⊤ = reset_all_redelegations k >> ubds in
        let fees : Action Failure State ⊤ = handle_distribution k height >> reds in
        let (u0, s0, e0, h0) = bind-ok (check_allowed k allowed) (λ _. fees) s h in
        let (u1, s1, e1, h1) = bind-ok (handle_distribution k height) (λ _. reds) s0 h0 in
        let (u2, s2, e2, h2) = bind-ok (reset_all_redelegations k) (λ _. ubds) s1 h1 in
        let (u3, s3, e3, h3) = bind-ok (reset_all_unbondings k) (λ _. vals) s2 h2 in
        let (u4, s4, e4, h4) = bind-ok (reset_all_validators k allowed) (λ _. last) s3 h3 in
        let (kr, ku) = validators-keep s3 e4 in
        let (fr, fu, infos) = finish-keeps s4 h4 in
        record {
          before = s3;
          staked = s4;
          started = through height s e0 e1 e2 e3;
          looped = e4;
          validators = reset_all_validators-IsReset k allowed s3 store e4;
          ended = h4;
          redelegations_zero =
              same_rows redelegations (λ x. x.key) (λ r. IsZeroed r.entries)
                (fr ∙ kr ∙ unbondings-keep s2 e3) (redelegations-zero k store s1 e2);
          unbondings_zero =
              same_rows unbondings (λ x. x.key) (λ r. IsZeroed r.entries) (fu ∙ ku)
                (unbondings-zero k store s2 e3);
          signing_infos_zero = infos;
        }

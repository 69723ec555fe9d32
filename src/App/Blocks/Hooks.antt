-- ===== src/App/Blocks/Hooks.antt =====
-- Which blocks the hooks of the begin blocker act in.
use gnodi.Base.{
  ap, sym, ◌∙◌, subst, arith, ℕ, ◌≡◌, ◌≢◌, Bool, true, false, Bool-cases, inl, inr, ⊤, some, ◌==◌,
  if◌then◌else◌,
}
use gnodi.Base.{==_iff}
use gnodi.Base.Result.{Result, ok, err}
use gnodi.Base.Action.{Action, pure, ◌>>◌, bind-ok, try, try-ok}
use gnodi.App.Blocks.{
  Keepers, BurnError, burn_panic, apply_hotfix, burn_or_panic, BlockError, hotfix_panic,
  begin_blocker, min_gas_price_hotfix_height, security_burn_height, module_error,
  apply_security_burn,
}

module _ (k : Keepers) where
  open k use {State, Events, get_fee_params, set_fee_params, begin_block}

  -- The state that the modules' begin blocker starts from, and what was done to get there.
  pub record Begun (height : ℕ) (s : State) (events : Events) (s' : State) : Type 0 where
    pub before : State
    pub begun : begin_block before ≡ (some events, s')
    pub plain : height ≢ min_gas_price_hotfix_height → height ≢ security_burn_height → before ≡ s
    pub hotfix :
        height ≡ min_gas_price_hotfix_height
        → set_fee_params (record (get_fee_params s) { min_gas_price = 0 }) s ≡ (some tt, before)
    pub burn :
        height ≡ security_burn_height
        → (burned : k.Coins) × (apply_security_burn k s ≡ (ok burned, before))

  hotfix-ok :
      (s : State) {s' : State}
      → apply_hotfix k s ≡ (ok tt, s')
      → set_fee_params (record (get_fee_params s) { min_gas_price = 0 }) s ≡ (some tt, s')
  unfolding apply_hotfix
  hotfix-ok s h =
      try-ok (set_fee_params (record (get_fee_params s) { min_gas_price = 0 })) hotfix_panic s h

  burn-ok :
      (s : State) {s' : State}
      → burn_or_panic k s ≡ (ok tt, s')
      → (burned : k.Coins) × (apply_security_burn k s ≡ (ok burned, s'))
  unfolding burn_or_panic
  burn-ok s h = by_result (apply_security_burn k s) h
    where
      by_result :
          (r : Result BurnError k.Coins × State) {s' : State}
          → ◌≡◌ {A = Result BlockError ⊤ × State}
              (elim r.0 [ ok _ ↦ (ok tt, r.1) | err e ↦ (err (burn_panic e), r.1) ])
              (ok tt, s')
          → (burned : k.Coins) × (r ≡ (ok burned, s'))
      by_result (ok c, t) h = (c, ap (λ r. (ok c, r.1)) h)
      by_result (err e, t) h = cc

  -- A step that is taken at one height only.
  at_height :
      (height n : ℕ) (m : Action BlockError State ⊤) (s : State) {s' : State}
      → (if height == n then m else pure tt) s ≡ (ok tt, s')
      → (height ≡ n → m s ≡ (ok tt, s')) × (height ≢ n → s' ≡ s)
  at_height height n m s h = elim (Bool-cases (height == n)) [
    | inl e ↦ (λ _. rw e at h, λ d. absurd (d ((==_iff height n).0 e)))
    | inr e ↦
        (λ same. absurd (unlike e ((==_iff height n).1 same)), λ _. sym (ap (λ r. r.1) (rw e at h)))
  ]
    where
      unlike : {b : Bool} → b ≡ false → b ≡ true → ⊥
      unlike e f = cc

  -- A begin blocker that ended well has run that of the modules last: from the state it was given
  -- at every height but two, after the minimum gas price was set to 0 at the height of the hotfix,
  -- and after the burn at the height of the burn.
  pub begin_blocker-Begun :
      (height : ℕ) (s s' : State) (events : Events)
      → begin_blocker k height s ≡ (ok events, s')
      → Begun height s events s'
  unfolding begin_blocker
  begin_blocker-Begun height s s' events h =
      let run : Action BlockError State Events = try begin_block module_error in
      let burning = if height == security_burn_height then burn_or_panic k else pure tt in
      let fixing = if height == min_gas_price_hotfix_height then apply_hotfix k else pure tt in
      let (u, s1, e1, h1) = bind-ok fixing (λ _. burning >> run) s h in
      let (v, s2, e2, h2) = bind-ok burning (λ _. run) s1 h1 in
      let (fixed, left) = at_height height min_gas_price_hotfix_height (apply_hotfix k) s e1 in
      let (burned, kept) = at_height height security_burn_height (burn_or_panic k) s1 e2 in
      record {
        before = s2;
        begun = try-ok begin_block module_error s2 h2;
        plain = λ n m. kept m ∙ left n;
        hotfix = λ e.
            subst
              (λ t.
                set_fee_params (record (get_fee_params s) { min_gas_price = 0 }) s ≡ (some tt, t))
              (sym (kept (apart e))) (hotfix-ok s (fixed e));
        burn = λ e.
            burn-ok s (subst (λ t. burn_or_panic k t ≡ (ok tt, s2)) (left (later e)) (burned e));
      }
    where
      apart : height ≡ min_gas_price_hotfix_height → height ≢ security_burn_height
      apart e f = omega arith

      later : height ≡ security_burn_height → height ≢ min_gas_price_hotfix_height
      later e f = omega arith

-- ===== src/App/Blocks/Burn.antt =====
-- What the burn does to the bank, and which blocks it happens in.
use gnodi.Base.{
  ap, refl, sym, ◌∙◌, subst, arith, ℕ, ◌+◌, ◌≤◌, ◌≡◌, ◌≢◌, true, false, Bool-cases, inl, inr, List,
  [], ◌∷◌, some, All, if◌then◌else◌,
}
use gnodi.Base.{◌⊎◌, subst₂}
use gnodi.Base.Partial.{some_inj}
use gnodi.Base.Text.{Bytes, bytes_equal, bytes_equal_iff}
use gnodi.Base.Result.{Result, ok, err}
use gnodi.Base.Action.{Action, try-then, have-then}
use gnodi.App.Blocks.{
  Keepers, BurnError, not_collected, not_burned, bad_address, collect, burn_accounts,
  apply_security_burn, security_burn_accounts,
}

ok_inj : {E A : Type 0} {a b : A} → ◌≡◌ {A = Result E A} (ok a) (ok b) → a ≡ b
ok_inj {a = a} h = ap (λ r. elim r [ ok x ↦ x | err _ ↦ a ]) h

module _ (k : Keepers) where
  open k use {
    State, Coins, acc_address_from_bech32, get_all_balances, is_zero, add, no_coins, send_to_vm,
    burn_in_vm,
  }

  -- What the bank documents, for amounts and supplies by denomination: a transfer to x/vm moves the
  -- coins and no others, and a burn there takes them out of the supply.
  pub record IsBank (vm : Bytes) (amount : Bytes → Coins → ℕ) (supply : Bytes → State → ℕ)
      : Type 0 where
    pub zero_amount : (d : Bytes) (c : Coins) → is_zero c ≡ true → amount d c ≡ 0
    pub add_amount : (d : Bytes) (a b : Coins) → amount d (add a b) ≡ amount d a + amount d b
    pub no_amount : (d : Bytes) → amount d no_coins ≡ 0
    pub sent :
        (d a : Bytes) (c : Coins) (s s' : State)
        → a ≢ vm
        → send_to_vm a c s ≡ (some tt, s')
        → (amount d (get_all_balances a s') + amount d c ≡ amount d (get_all_balances a s))
          × (amount d (get_all_balances vm s') ≡ amount d (get_all_balances vm s) + amount d c)
          × (supply d s' ≡ supply d s)
    pub sent_other :
        (d a b : Bytes) (c : Coins) (s s' : State)
        → b ≢ a
        → b ≢ vm
        → send_to_vm a c s ≡ (some tt, s')
        → amount d (get_all_balances b s') ≡ amount d (get_all_balances b s)
    pub burned :
        (d : Bytes) (c : Coins) (s s' : State)
        → burn_in_vm c s ≡ (some tt, s')
        → (amount d (get_all_balances vm s') + amount d c ≡ amount d (get_all_balances vm s))
          × (supply d s' + amount d c ≡ supply d s)
    pub burned_other :
        (d b : Bytes) (c : Coins) (s s' : State)
        → b ≢ vm
        → burn_in_vm c s ≡ (some tt, s')
        → amount d (get_all_balances b s') ≡ amount d (get_all_balances b s)

  module _ (vm : Bytes) (amount : Bytes → Coins → ℕ) (supply : Bytes → State → ℕ)
      (bank : IsBank vm amount supply) (d : Bytes) where
    abbrev pub held : Bytes → State → ℕ
    held a s = amount d (get_all_balances a s)

    -- What one account's round does to the supply, to that account and to the others.
    record Cleared (a : Bytes) (c : Coins) (s s' : State) : Type 0 where
      own : held a s' + amount d c ≡ held a s
      others : (b : Bytes) → b ≢ a → held b s' ≡ held b s
      total : supply d s' + amount d c ≡ supply d s

    collect-ok :
        {A : Type 0} (a x : Bytes) (c : Coins) (m : Action BurnError State A) (s : State) {r : A}
        {s' : State}
        → a ≢ vm
        → collect k a x c m s ≡ (ok r, s')
        → (s2 : State) × Cleared a c s s2 × (m s2 ≡ (ok r, s'))
    unfolding collect
    collect-ok a x c m s n h =
        let (u, t1, h1) = try-then (send_to_vm a c s) (not_collected x) _ h in
        let s1 = (send_to_vm a c s).1 in
        let (v, t2, h2) = try-then (burn_in_vm c s1) (not_burned x) _ h1 in
        let s2 = (burn_in_vm c s1).1 in (s2, cleared s1 s2 t1 t2, h2)
      where
        cleared :
            (s1 s2 : State)
            → send_to_vm a c s ≡ (some tt, s1)
            → burn_in_vm c s1 ≡ (some tt, s2)
            → Cleared a c s s2
        cleared s1 s2 t1 t2 =
            let (own, vault, total) = bank.sent d a c s s1 n t1 in
            let (rest, less) = bank.burned d c s1 s2 t2 in
            record {
              own = omega (arith, own, bank.burned_other d a c s1 s2 n t2);
              others = λ b m. elim (Bool-cases (bytes_equal b vm)) [
                | inl e ↦
                    subst (λ v. held v s2 ≡ held v s) (sym ((bytes_equal_iff b vm).0 e))
                      (omega (arith, vault, rest))
                | inr e ↦
                    bank.burned_other d b c s1 s2 (different b e) t2
                    ∙ bank.sent_other d a b c s s1 m (different b e) t1
              ];
              total = omega (arith, total, less);
            }
          where
            different : (b : Bytes) → bytes_equal b vm ≡ false → b ≢ vm
            different b e h = cc ((bytes_equal_iff b vm).1 h)

    -- The addresses of the accounts are not that of x/vm.
    abbrev pub Apart : List Bytes → Type 0
    Apart l = All (λ x. (a : Bytes) → acc_address_from_bech32 x ≡ some a → a ≢ vm) l

    abbrev pub Emptied : List Bytes → State → Type 0
    Emptied l s = All (λ x. (a : Bytes) → acc_address_from_bech32 x ≡ some a → held a s ≡ 0) l

    record Burned (l : List Bytes) (before : Coins) (s : State) (after : Coins) (s' : State)
        : Type 0 where
      emptied : Emptied l s'
      total : supply d s' + amount d after ≡ supply d s + amount d before
      fewer : (b : Bytes) → held b s' ≤ held b s
      others : (b : Bytes) → All (λ x. acc_address_from_bech32 x ≢ some b) l → held b s' ≡ held b s

    -- A round, and what follows it.
    round-Burned :
        (x a : Bytes) (l : List Bytes) (before before2 : Coins) (s s2 : State) {after : Coins}
        {s' : State}
        → acc_address_from_bech32 x ≡ some a
        → held a s2 ≡ 0
        → ((b : Bytes) → b ≢ a → held b s2 ≡ held b s)
        → supply d s2 + amount d before2 ≡ supply d s + amount d before
        → Burned l before2 s2 after s'
        → Burned (x ∷ l) before s after s'
    round-Burned x a l before before2 s s2 {s' = s'} e z o t r = record {
      emptied = (
        (λ b e'. subst (λ b. held b s' ≡ 0) (some_inj (sym e ∙ e')) (omega (arith, z, r.fewer a))),
        r.emptied,
      );
      total = omega (arith, t, r.total);
      fewer = λ b. elim (Bool-cases (bytes_equal b a)) [
        | inl same ↦
            subst (λ b. held b s' ≤ held b s) (sym ((bytes_equal_iff b a).0 same))
              (omega (arith, z, r.fewer a))
        | inr other ↦ omega (arith, r.fewer b, o b (unlike b other))
      ];
      others = λ b (m, ms). r.others b ms ∙ o b (λ same. m (e ∙ ap some (sym same)));
    }
      where
        unlike : (b : Bytes) → bytes_equal b a ≡ false → b ≢ a
        unlike b e h = cc ((bytes_equal_iff b a).1 h)

    burn_accounts-Burned :
        (l : List Bytes) (before : Coins) (s : State) {after : Coins} {s' : State}
        → Apart l
        → burn_accounts k l before s ≡ (ok after, s')
        → Burned l before s after s'
    unfolding burn_accounts
    burn_accounts-Burned [] before s {after = after} {s' = s'} n h =
        subst₂ (λ c t. Burned [] before s c t) (ok_inj (ap (λ r. r.0) h)) (ap (λ r. r.1) h)
          (record { emptied = tt; total = refl; fewer = λ b. omega arith; others = λ b m. refl })
    burn_accounts-Burned (x ∷ l) before s {after = after} {s' = s'} (n, ns) h =
        let (a, e, h1) = have-then s (acc_address_from_bech32 x) (bad_address x) _ h in
        by_balance (λ c t g. burn_accounts-Burned l c t ns g) a e
          (Bool-cases (is_zero (get_all_balances a s))) h1
      where
        by_balance :
            ((c : Coins) (t : State)
              → burn_accounts k l c t ≡ (ok after, s')
              → Burned l c t after s')
            → (a : Bytes) → acc_address_from_bech32 x ≡ some a
            → (is_zero (get_all_balances a s) ≡ true) ⊎ (is_zero (get_all_balances a s) ≡ false)
            → (if is_zero (get_all_balances a s)
                  then burn_accounts k l before
                  else collect k a x
                      (get_all_balances a s)
                      (burn_accounts k l (add before (get_all_balances a s))))
                s
              ≡ (ok after, s')
            → Burned (x ∷ l) before s after s'
        by_balance rest a e (inl z) h1 =
            round-Burned x a l before before s s e (bank.zero_amount d (get_all_balances a s) z)
              (λ b m. refl) refl (rest before s (rw z at h1))
        by_balance rest a e (inr z) h1 =
            let c = get_all_balances a s in
            let (s2, r, h2) =
              collect-ok a x c (burn_accounts k l (add before c)) s (n a e) (rw z at h1) in
            round-Burned x a l before (add before c) s s2 e (omega (arith, r.own)) r.others
              (omega (arith, r.total, bank.add_amount d before c)) (rest (add before c) s2 h2)

    -- With a bank that moves and burns what it is told, and listed accounts other than that of
    -- x/vm: a burn that ended well leaves nothing of the denomination on the listed accounts,
    -- takes exactly what it reports out of the supply, and leaves every other account as it was,
    -- that of x/vm too.
    pub apply_security_burn-burned :
        (s s' : State) (burned : Coins)
        → Apart security_burn_accounts
        → apply_security_burn k s ≡ (ok burned, s')
        → Emptied security_burn_accounts s'
          × (supply d s' + amount d burned ≡ supply d s)
          × ((b : Bytes)
              → All (λ x. acc_address_from_bech32 x ≢ some b) security_burn_accounts
              → held b s' ≡ held b s)
    unfolding apply_security_burn
    apply_security_burn-burned s s' burned n h =
        let r = burn_accounts-Burned security_burn_accounts no_coins s n h in
        (r.emptied, omega (arith, r.total, bank.no_amount d), r.others)

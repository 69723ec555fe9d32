-- ===== src/Gnodid/InPlace/Replacing.antt =====
-- The validators of the chain are gone before the new one is written.
use gnodi.Base.{
  ap, refl, sym, ◌∙◌, subst, arith, ◌≡◌, Bool, true, false, Bool-cases, inl, inr, List, [], ◌∷◌,
  some, All, if◌then◌else◌,
}
use gnodi.Base.Text.{Bytes, bytes_equal, bytes_equal_iff}
use gnodi.Base.Result.{ok}
use gnodi.Base.Action.{bind-ok, have-then, each-rule, ◌>>◌}
use gnodi.Gnodid.InPlace.Args.{ValArgs}
use gnodi.Gnodid.InPlace.{
  Keepers, Range, by_power, last_power, validators, unbonding_queue, exited, delete_range,
  open_iterator, remove_validators, new_validator, add_validator, add_signing_info, fund_accounts,
  init_app_for_testnet,
}

-- The keys without this one.
abbrev pub without : Bytes → List Bytes → List Bytes
without key [] = []
without key (a ∷ l) = let rest = without key l in if bytes_equal a key then rest else a ∷ rest

-- Every key of the first list stands in the second.
listed : Bytes → List Bytes → Bool
listed a [] = false
listed a (b ∷ l) = let rest = listed a l in if bytes_equal a b then true else rest

abbrev Within : List Bytes → List Bytes → Type 0
Within l m = All (λ a. listed a m ≡ true) l

Within-without : (key : Bytes) (l m : List Bytes) → Within l (key ∷ m) → Within (without key l) m
unfolding listed
Within-without key [] m w = tt
Within-without key (a ∷ l) m (w, ws) = ground (arith, Within-without key l m ws)

Within-later : (b : Bytes) (l m : List Bytes) → Within l m → Within l (b ∷ m)
unfolding listed
Within-later b [] m w = tt
Within-later b (a ∷ l) m (w, ws) = (ground arith, Within-later b l m ws)

Within-self : (l : List Bytes) → Within l l
unfolding listed
Within-self [] = tt
Within-self (a ∷ l) = (rw ((bytes_equal_iff a a).1 refl), Within-later a l l (Within-self l))

Within-none : (l : List Bytes) → Within l [] → l ≡ []
unfolding listed
Within-none [] w = refl
Within-none (a ∷ l) (w, ws) = cc

module _ (k : Keepers) where
  open k use {State, Any, keys, delete, new_any, val_address_to_bytes}

  -- Deleting a key of the store takes it out of every range.
  abbrev pub IsKeyed : Type 0
  IsKeyed = (r : Range) (key : Bytes) (s : State) → keys r (delete key s) ≡ without key (keys r s)

  -- What was done to a chain that an in-place testnet starts on.
  pub record Replaced (args : ValArgs) (s s' : State) : Type 0 where
    pub emptied : State
    pub key : Any
    pub addr : Bytes
    pub decoded : val_address_to_bytes args.new_operator_address ≡ some addr
    pub empty : (r : Range) → keys r emptied ≡ []
    pub finished :
        (add_validator k (new_validator k args key) addr
            >> (add_signing_info k args.new_val_addr >> fund_accounts k args.accounts_to_fund))
          emptied
        ≡ (ok tt, s')

  module _ (keyed : IsKeyed) where
    delete_range-empty :
        (r : Range) (s : State) {s' : State} → delete_range k r s ≡ (ok tt, s') → keys r s' ≡ []
    unfolding delete_range
    delete_range-empty r s h = Within-none _ (
        each-rule (λ key s. (ok tt, delete key s)) (λ left t. Within (keys r t) left)
          (λ key left t t1 w e.
            subst (λ u. Within (keys r u) left) (ap (λ p. p.1) e)
              (rw (keyed r key t) (Within-without key (keys r t) left w)))
          (keys r s) s (Within-self (keys r s)) h)

    delete_range_stays :
        (r q : Range) (s : State) {s' : State}
        → delete_range k r s ≡ (ok tt, s')
        → keys q s ≡ []
        → keys q s' ≡ []
    unfolding delete_range
    delete_range_stays r q s h e =
        each-rule (λ key s. (ok tt, delete key s)) (λ left t. keys q t ≡ [])
          (λ key left t t1 w e1.
            subst (λ u. keys q u ≡ []) (ap (λ p. p.1) e1) (keyed q key t ∙ ap (without key) w))
          (keys r s) s e h

    opened : (r : Range) (s : State) {s' : State} → open_iterator k r s ≡ (ok tt, s') → s' ≡ s
    unfolding open_iterator
    opened r s h = elim (Bool-cases (k.iterator_fails r s)) [
      | inl e ↦ cc (rw e at h)
      | inr e ↦ sym (ap (λ p. p.1) (rw e at h))
    ]

    remove_validators-empty :
        (s : State) {s' : State}
        → remove_validators k s ≡ (ok tt, s')
        → (r : Range) → keys r s' ≡ []
    unfolding remove_validators
    remove_validators-empty s {s' = s'} h =
        let step4 = delete_range k unbonding_queue in
        let step3 = delete_range k validators >> step4 in
        let step2 = delete_range k last_power >> step3 in
        let step1 = open_iterator k last_power >> step2 in
        let step0 = delete_range k by_power >> step1 in
        let (u0, s0, e0, h0) = bind-ok (open_iterator k by_power) (λ _. step0) s h in
        let (u1, s1, e1, h1) = bind-ok (delete_range k by_power) (λ _. step1) s0 h0 in
        let (u2, s2, e2, h2) = bind-ok (open_iterator k last_power) (λ _. step2) s1 h1 in
        let (u3, s3, e3, h3) = bind-ok (delete_range k last_power) (λ _. step3) s2 h2 in
        let (u4, s4, e4, h4) = bind-ok (delete_range k validators) (λ _. step4) s3 h3 in
        let same = opened last_power s1 e2 in
        each_range
          (delete_range_stays unbonding_queue by_power s4 h4 (
            delete_range_stays validators by_power s3 e4 (
              delete_range_stays last_power by_power s2 e3
                (ap (keys by_power) same ∙ delete_range-empty by_power s0 e1))))
          (delete_range_stays unbonding_queue last_power s4 h4
            (delete_range_stays validators last_power s3 e4 (delete_range-empty last_power s2 e3)))
          (delete_range_stays unbonding_queue validators s4 h4
            (delete_range-empty validators s3 e4))
          (delete_range-empty unbonding_queue s4 h4)
      where
        each_range :
            keys by_power s' ≡ []
            → keys last_power s' ≡ []
            → keys validators s' ≡ []
            → keys unbonding_queue s' ≡ []
            → (r : Range) → keys r s' ≡ []
        each_range a b c d by_power = a
        each_range a b c d last_power = b
        each_range a b c d validators = c
        each_range a b c d unbonding_queue = d

    -- If deleting a key takes it out of every range of the staking store: a testnet that was set
    -- up has decoded the operator, emptied the four ranges that hold validators, and then, from
    -- there, written the new validator, its signing info and the funds.
    pub init_app_for_testnet-Replaced :
        (args : ValArgs) (s s' : State)
        → init_app_for_testnet k args s ≡ (ok tt, s')
        → Replaced args s s'
    unfolding init_app_for_testnet
    init_app_for_testnet-Replaced args s s' h =
        let (key, e, h0) = have-then s (new_any args.new_val_pub_key) exited _ h in
        let (addr, e1, h1) =
          have-then s (val_address_to_bytes args.new_operator_address) exited _ h0 in
        let rest =
          add_validator k (new_validator k args key) addr
          >> (add_signing_info k args.new_val_addr >> fund_accounts k args.accounts_to_fund) in
        let (u, s1, e2, h2) = bind-ok (remove_validators k) (λ _. rest) s h1 in
        record {
          emptied = s1;
          key = key;
          addr = addr;
          decoded = e1;
          empty = remove_validators-empty s e2;
          finished = h2;
        }

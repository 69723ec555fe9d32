-- ===== src/App/Upgrades/Handler.antt =====
-- What holds when the upgrade hands over to the migrations.
use gnodi.Base.{
  ap, ◌≡◌, ◌≢◌, refl, sym, ◌∙◌, ℕ, true, Bool-cases, inl, inr, some, List, [], ◌∷◌, All,
}
use gnodi.Base.Text.{Bytes, bytes_equal, bytes_equal_iff}
use gnodi.Base.Result.{Result, ok, err, ◌>>=◌}
use gnodi.App.Upgrades.{
  Chain, GroupMsg, group_msgs, VersionMap, set_version, Failure, new_evm_genesis_state,
  new_fee_market_genesis_state, gnod_metadata, marked, disable_all, evm_upgrade,
}
use gnodi.App.Upgrades.{
  create_group, create_group_with_policy, update_group_members, update_group_admin,
  update_group_metadata, create_group_policy, update_group_policy_admin,
  update_group_policy_decision_policy, update_group_policy_metadata, submit_proposal,
  withdraw_proposal, vote, exec, leave_group,
}

step-ok :
    {A B : Type 0} (r : Result Failure A) (f : A → Result Failure B) {b : B}
    → (r >>= f) ≡ ok b
    → (a : A) × (r ≡ ok a) × (f a ≡ ok b)
step-ok (ok a) f h = (a, refl, h)
step-ok (err e) f h = cc

done_inj : {A : Type 0} {a b : A} → ◌≡◌ {A = Result Failure A} (ok a) (ok b) → a ≡ b
done_inj {a = a} h = ap (λ r. elim r [ ok x ↦ x | err _ ↦ a ]) h

set_version_same : (vm : VersionMap) (name : Bytes) (n : ℕ) → set_version vm name n name ≡ some n
set_version_same vm name n = rw ((bytes_equal_iff name name).1 refl)

set_version_other :
    (vm : VersionMap) (name other : Bytes) (n : ℕ)
    → other ≢ name
    → set_version vm name n other ≡ vm other
set_version_other vm name other n d = elim (Bool-cases (bytes_equal other name)) [
  | inl e ↦ absurd (d ((bytes_equal_iff other name).0 e))
  | inr e ↦ rw e
]

-- The list names every message of x/group.
every : (P : GroupMsg → Type 0) → All P group_msgs → (m : GroupMsg) → P m
every P h create_group = h.0
every P h create_group_with_policy = h.1.0
every P h update_group_members = h.1.1.0
every P h update_group_admin = h.1.1.1.0
every P h update_group_metadata = h.1.1.1.1.0
every P h create_group_policy = h.1.1.1.1.1.0
every P h update_group_policy_admin = h.1.1.1.1.1.1.0
every P h update_group_policy_decision_policy = h.1.1.1.1.1.1.1.0
every P h update_group_policy_metadata = h.1.1.1.1.1.1.1.1.0
every P h submit_proposal = h.1.1.1.1.1.1.1.1.1.0
every P h withdraw_proposal = h.1.1.1.1.1.1.1.1.1.1.0
every P h vote = h.1.1.1.1.1.1.1.1.1.1.1.0
every P h exec = h.1.1.1.1.1.1.1.1.1.1.1.1.0
every P h leave_group = h.1.1.1.1.1.1.1.1.1.1.1.1.1.0

module _ (c : Chain) where
  open c use {
    State, type_url, evm_name, fee_market_name, get_fee_params, set_fee_params, disable,
    is_disabled, run_migrations,
  }

  -- The circuit breaker disables the URL it is given and leaves what is disabled so; neither it nor a
  -- write of the fee market's parameters touches the other, and those read back as they were set.
  pub record IsOrderly : Type 0 where
    pub disabled : (url : Bytes) (s s' : State) → disable url s ≡ ok s' → is_disabled url s' ≡ true
    pub kept :
        (url other : Bytes) (s s' : State)
        → disable url s ≡ ok s'
        → is_disabled other s ≡ true
        → is_disabled other s' ≡ true
    pub fees_kept :
        (url : Bytes) (s s' : State) → disable url s ≡ ok s' → get_fee_params s' ≡ get_fee_params s
    pub fees_set : (p : _) (s s' : State) → set_fee_params p s ≡ ok s' → get_fee_params s' ≡ p

  -- The migrations run from a state in which x/group is disabled message by message and the minimum gas
  -- price is 0, and from a version map that has the two modules at 1 and is otherwise the one given.
  pub record Handed (from_vm : VersionMap) (r : VersionMap × State) : Type 0 where
    pub before : State
    pub versions : VersionMap
    pub migrated : run_migrations versions before ≡ ok r
    pub evm : versions evm_name ≡ some 1
    pub fee_market : versions fee_market_name ≡ some 1
    pub others :
        (name : Bytes) → name ≢ evm_name → name ≢ fee_market_name → versions name ≡ from_vm name
    pub group_disabled : (m : GroupMsg) → is_disabled (type_url m) before ≡ true
    pub no_minimum : (get_fee_params before).min_gas_price ≡ 0

  -- The second mark leaves the first, or sets the same version again.
  evm_marked : (vm : VersionMap) → marked c vm evm_name ≡ some 1
  unfolding marked
  evm_marked vm = elim (Bool-cases (bytes_equal evm_name fee_market_name)) [
    | inl e ↦ rw e
    | inr e ↦ rw e (set_version_same vm evm_name 1)
  ]

  module _ (orderly : IsOrderly) where
    open orderly use {disabled, kept, fees_kept, fees_set}

    still_disabled :
        (ms : List GroupMsg) (url : Bytes) (s s' : State)
        → disable_all c ms s ≡ ok s'
        → is_disabled url s ≡ true
        → is_disabled url s' ≡ true
    unfolding disable_all
    still_disabled [] url s s' h d = cc
    still_disabled (m ∷ ms) url s s' h d =
        let (s1, e, h1) = step-ok (disable (type_url m) s) _ h in
        still_disabled ms url s1 s' h1 (kept (type_url m) url s s1 e d)

    All-disabled :
        (ms : List GroupMsg) (s s' : State)
        → disable_all c ms s ≡ ok s'
        → All (λ m. is_disabled (type_url m) s' ≡ true) ms × (get_fee_params s' ≡ get_fee_params s)
    unfolding disable_all
    All-disabled [] s s' h = (tt, ap get_fee_params (sym (done_inj h)))
    All-disabled (m ∷ ms) s s' h =
        let (s1, e, h1) = step-ok (disable (type_url m) s) _ h in
        let (d, f) = All-disabled ms s1 s' h1 in
        (
          (still_disabled ms (type_url m) s1 s' h1 (disabled (type_url m) s s1 e), d),
          f ∙ fees_kept (type_url m) s s1 e,
        )

    -- With a circuit breaker and a fee market that keep what they are given, an upgrade that ends
    -- well has run the migrations, and has their result, from a state in which every message of
    -- x/group is disabled and the minimum gas price is 0, and from a version map with x/vm and
    -- x/feemarket at 1 and every other name as it was.
    pub evm_upgrade-Handed :
        (from_vm : VersionMap) (s : State) (r : VersionMap × State)
        → evm_upgrade c from_vm s ≡ ok r
        → Handed from_vm r
    unfolding evm_upgrade marked
    evm_upgrade-Handed vm s r h =
        let s0 = c.set_denom_metadata gnod_metadata s in
        let (s1, e1, h1) = step-ok (c.init_evm (new_evm_genesis_state c) s0) _ h in
        let (s2, e2, h2) = step-ok (c.init_fee_market (new_fee_market_genesis_state c) s1) _ h1 in
        let p = record (get_fee_params s2) { min_gas_price = 0 } in
        let (s3, e3, h3) = step-ok (set_fee_params p s2) _ h2 in
        let (s4, e4, h4) = step-ok (disable_all c group_msgs s3) _ h3 in
        let (d, f) = All-disabled group_msgs s3 s4 e4 in
        record {
          before = s4;
          versions = marked c vm;
          migrated = h4;
          evm = evm_marked vm;
          fee_market = set_version_same (set_version vm evm_name 1) fee_market_name 1;
          others = λ name n n'.
              set_version_other (set_version vm evm_name 1) fee_market_name name 1 n'
              ∙ set_version_other vm evm_name name 1 n;
          group_disabled = every (λ m. is_disabled (type_url m) s4 ≡ true) d;
          no_minimum = ap (λ p. p.min_gas_price) (f ∙ fees_set p s2 s3 e3);
        }

-- ===== src/App/Tests/Upgrade.antt =====
-- The upgrade on a small chain, whose breaker is a set of URLs and whose migrations change nothing.
use gnodi.Base.{arith, ap, sym, refl, ◌≡◌, ◌∙◌, ◌||◌, ℕ, Bool, true, false, none, [], ◌∷◌, ⊤}
use gnodi.Base.Text.{Bytes, bytes, bytes_equal, bytes_equal_iff}
use gnodi.Base.Result.{Result, ok, err}
use gnodi.App.Upgrades.{
  Chain, GroupMsg, create_group, create_group_with_policy, update_group_members, update_group_admin,
  update_group_metadata, create_group_policy, update_group_policy_admin,
  update_group_policy_decision_policy, update_group_policy_metadata, submit_proposal,
  withdraw_proposal, vote, exec, leave_group, FeeParams, VersionMap, Failure, evm_upgrade,
  disable_all,
}
use gnodi.App.Upgrades.Handler.{IsOrderly, Handed, evm_upgrade-Handed}

pub record Breaker : Type 0 where
  pub disabled : Bytes → Bool
  pub fees : FeeParams ⊤

abbrev fees : FeeParams ⊤
fees = record { no_base_fee = false; base_fee = 7; min_gas_price = 9; rest = tt }

abbrev trip : Bytes → Breaker → Breaker
trip url s = record s { disabled = λ u. bytes_equal u url || s.disabled u }

abbrev number_of : GroupMsg → ℕ
number_of create_group = 0
number_of create_group_with_policy = 1
number_of update_group_members = 2
number_of update_group_admin = 3
number_of update_group_metadata = 4
number_of create_group_policy = 5
number_of update_group_policy_admin = 6
number_of update_group_policy_decision_policy = 7
number_of update_group_policy_metadata = 8
number_of submit_proposal = 9
number_of withdraw_proposal = 10
number_of vote = 11
number_of exec = 12
number_of leave_group = 13

abbrev pub small : Chain
small = record {
  State = Breaker;
  EvmRest = ⊤;
  Preinstalls = ⊤;
  FeeRest = ⊤;
  type_url = λ m. number_of m ∷ [];
  address = λ p. [];
  evm_name = bytes "evm";
  fee_market_name = bytes "feemarket";
  erc20_name = bytes "erc20";
  precisebank_name = bytes "precisebank";
  default_evm = record {
    evm_denom = bytes "aatom";
    extended_denom = none;
    active_static_precompiles = [];
    preinstalls = tt;
    rest = tt;
  };
  default_fee_params = fees;
  default_preinstalls = tt;
  coin_denom = bytes "uGNOD";
  coin_extended_denom = bytes "aGNOD";
  set_denom_metadata = λ m s. s;
  init_evm = λ g s. ok s;
  init_fee_market = λ p s. ok (record s { fees = p });
  get_fee_params = λ s. s.fees;
  set_fee_params = λ p s. ok (record s { fees = p });
  disable = λ url s. ok (trip url s);
  is_disabled = λ url s. s.disabled url;
  run_migrations = λ vm s. ok (vm, s);
}

tripped : (url : Bytes) (s : Breaker) → (trip url s).disabled url ≡ true
tripped url s = rw ((bytes_equal_iff url url).1 refl)

kept_tripped :
    (url other : Bytes) (s : Breaker) → s.disabled other ≡ true → (trip url s).disabled other ≡ true
kept_tripped url other s e = ground arith

state_of : {a b : Breaker} → ◌≡◌ {A = Result Failure Breaker} (ok a) (ok b) → b ≡ a
state_of {a = a} h = sym (ap (λ r. elim r [ ok x ↦ x | err _ ↦ a ]) h)

small-IsOrderly : IsOrderly small
small-IsOrderly = record {
  disabled = λ url s s' h. ap (λ t. t.disabled url) (state_of h) ∙ tripped url s;
  kept = λ url other s s' h e. ap (λ t. t.disabled other) (state_of h) ∙ kept_tripped url other s e;
  fees_kept = λ url s s' h. ap (λ t. t.fees) (state_of h);
  fees_set = λ p s s' h. ap (λ t. t.fees) (state_of h);
}

abbrev before : Breaker
before = record { disabled = λ url. false; fees = fees }

abbrev no_versions : VersionMap
no_versions = λ name. none

abbrev result : VersionMap × Breaker
result = elim (evm_upgrade small no_versions before) [ ok r ↦ r | err _ ↦ (no_versions, before) ]

upgraded : evm_upgrade small no_versions before ≡ ok result
unfolding evm_upgrade disable_all
upgraded = refl

evm_upgrade-Handed_example : Handed small no_versions result
evm_upgrade-Handed_example =
    evm_upgrade-Handed small small-IsOrderly no_versions before result upgraded

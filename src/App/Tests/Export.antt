-- ===== src/App/Tests/Export.antt =====
-- The preparation for height 0 on a chain of one validator.
use gnodi.Base.{
  ap, refl, sym, subst, ◌∙◌, arith, ℕ, ◌≡◌, ◌≢◌, Bool, true, false, List, [], ◌∷◌, ⊤, Option, some,
  none, if◌then◌else◌,
}
use gnodi.Base.Text.{Bytes, bytes, bytes_equal, bytes_equal_iff}
use gnodi.Base.Result.{ok}
use gnodi.Base.Action.{each}
use gnodi.Base.Partial.{some_inj}
use gnodi.Base.Table.{replace}
use gnodi.App.Export.Env.{Keepers, Entry, Redelegation, Unbonding, Validator, SigningInfo}
use gnodi.App.Export.{
  check_allowed, handle_distribution, withdraw_validator, withdraw_delegation, reinit_validator,
  reinit_delegation, is_listed, reset, reset_validator, reset_all_validators, reset_redelegation,
  reset_all_redelegations, reset_unbonding, reset_all_unbondings, reset_signing_info,
  reset_all_signing_infos, finish, prep_for_zero_height_genesis,
}
use gnodi.App.Export.ZeroHeight.{IsStore}
use gnodi.App.Export.Prepared.{Prepared, prep-Prepared}

-- The rows of the tables, and the one validator, whose rest is its operator.
record Store : Type 0 where
  redelegations : List (Redelegation Bytes)
  unbondings : List (Unbonding Bytes)
  infos : List (SigningInfo Bytes)
  validator : Validator Bytes

abbrev toy_set : Validator Bytes → Store → Option ⊤ × Store
toy_set v s =
    if bytes_equal v.rest s.validator.rest then (some tt, record s { validator = v }) else (none, s)

abbrev toy_get : Bytes → Store → Option (Validator Bytes)
toy_get key s = if bytes_equal key s.validator.rest then some s.validator else none

abbrev toy : Keepers
toy = record {
  State = Store;
  Rest = Bytes;
  Coins = ℕ;
  Genesis = ⊤;
  Json = ⊤;
  Validators = ⊤;
  Params = ⊤;
  registry_val_to_bytes = λ a. some a;
  registry_acc_to_bytes = λ a. some a;
  val_address_to_bytes = λ a. some a;
  val_address_to_string = λ a. some a;
  validators = λ s. some (s.validator.rest ∷ []);
  withdraw_commission = λ h a s. (none, s);
  delegations = λ s. some (record { validator = s.validator.rest; delegator = bytes "d" } ∷ []);
  withdraw_rewards = λ h d v s. (some tt, s);
  delete_slash_events = λ h s. s;
  delete_historical_rewards = λ h s. s;
  outstanding_rewards = λ h a s. (some 3, s);
  get_fee_pool = λ s. (some (record { community_pool = 1; rest = [] }), s);
  set_fee_pool = λ p s. (some tt, s);
  add = λ a b. a;
  after_validator_created = λ h a s. (some tt, s);
  before_delegation_created = λ h d v s. (some tt, s);
  after_delegation_modified = λ h d v s. (some tt, s);
  redelegations = λ s. some s.redelegations;
  set_redelegation =
      λ r s. (some tt, record s { redelegations = replace (λ x. x.key) r s.redelegations });
  unbondings = λ s. some s.unbondings;
  set_unbonding = λ r s. (some tt, record s { unbondings = replace (λ x. x.key) r s.unbondings });
  validator_keys = λ s. s.validator.rest ∷ [];
  get_validator = toy_get;
  set_validator = toy_set;
  close_iterator = λ s. true;
  apply_validator_updates = λ s. (some tt, s);
  signing_infos = λ s. some s.infos;
  set_signing_info = λ i s. (some tt, record s { infos = replace (λ x. x.address) i s.infos });
  last_block_height = λ s. 9;
  export_genesis_for_modules = λ l s. some tt;
  marshal_indent = λ g. some tt;
  write_validators = λ s. some tt;
  consensus_params = λ s. tt;
}

-- What was found, and what was set.
found :
    (key : Bytes) (s : Store) {v : Validator Bytes}
    → toy_get key s ≡ some v
    → (bytes_equal key s.validator.rest ≡ true) × (s.validator ≡ v)
found key s h = by_test (bytes_equal key s.validator.rest) h
  where
    by_test :
        (b : Bool) {v : Validator Bytes}
        → ◌≡◌ {A = Option (Validator Bytes)} (if b then some s.validator else none) (some v)
        → (b ≡ true) × (s.validator ≡ v)
    by_test true h = (refl, some_inj h)
    by_test false h = cc

set :
    (v : Validator Bytes) (s : Store) {s' : Store}
    → toy_set v s ≡ (some tt, s')
    → (bytes_equal v.rest s.validator.rest ≡ true) × (record s { validator = v } ≡ s')
set v s h = by_test (bytes_equal v.rest s.validator.rest) h
  where
    by_test :
        (b : Bool) {s' : Store}
        → ◌≡◌ {A = Option ⊤ × Store}
            (if b then (some tt, record s { validator = v }) else (none, s))
            (some tt, s')
        → (b ≡ true) × (record s { validator = v } ≡ s')
    by_test true h = (refl, ap (λ r. r.1) h)
    by_test false h = cc

set_apart :
    {X : Type 0} (look : Store → X) (v : Validator Bytes) (s : Store)
    → look (record s { validator = v }) ≡ look s
    → look (toy_set v s).1 ≡ look s
set_apart look v s e = by_test (bytes_equal v.rest s.validator.rest)
  where
    by_test :
        (b : Bool)
        → look
            (if◌then◌else◌ {A = Option ⊤ × Store} b
              (some tt, record s { validator = v })
              (none, s)).1
          ≡ look s
    by_test true = e
    by_test false = refl

validator_now :
    (key : Bytes) (v new : Validator Bytes) (s s' : Store)
    → new.rest ≡ v.rest
    → toy_get key s ≡ some v
    → toy_set new s ≡ (some tt, s')
    → (toy_get key s' ≡ some new)
      × ((other : Bytes) → other ≢ key → toy_get other s' ≡ toy_get other s)
validator_now key v new s s' same e f =
    let (at, is_v) = found key s e in
    let (at', is_s) = set new s f in
    let key_same = (bytes_equal_iff key s.validator.rest).0 at in
    let rest_same = (bytes_equal_iff new.rest s.validator.rest).0 at' in
    subst
      (λ t.
        (toy_get key t ≡ some new)
        × ((other : Bytes) → other ≢ key → toy_get other t ≡ toy_get other s))
      is_s
      (
        rw ((bytes_equal_iff key new.rest).1 (key_same ∙ sym rest_same)),
        λ other n. nothing other n key_same (key_same ∙ sym rest_same),
      )
  where
    nothing :
        (other : Bytes)
        → other ≢ key
        → key ≡ s.validator.rest
        → key ≡ new.rest
        → (if bytes_equal other new.rest then some new else none) ≡ toy_get other s
    nothing other n k l =
        ground
          (arith, n, bytes_equal_iff other s.validator.rest, bytes_equal_iff other new.rest, k, l)

toy-IsStore : IsStore toy
toy-IsStore = record {
  redelegation_set = λ r all s s' e h.
      ap (λ p. some p.1.redelegations) (sym h)
      ∙ ap (λ l. some (replace (λ x. x.key) r l)) (some_inj e);
  unbonding_set = λ r all s s' e h.
      ap (λ p. some p.1.unbondings) (sym h)
      ∙ ap (λ l. some (replace (λ x. x.key) r l)) (some_inj e);
  signing_set = λ r all s e. ap (λ l. some (replace (λ x. x.address) r l)) (some_inj e);
  validator_set = λ key v h j s s' e f.
      validator_now key v (record v { unbonding_height = h; jailed = j }) s s' refl e f;
  redelegations_apart =
      λ s. ((λ r. refl), (λ v. set_apart (λ t. some t.redelegations) v s refl), refl, (λ i. refl));
  unbondings_apart = λ s. ((λ v. set_apart (λ t. some t.unbondings) v s refl), refl, (λ i. refl));
}

abbrev row : ℕ → Entry Bytes
row h = record { creation_height = h; rest = [] }

abbrev start : Store
start = record {
  redelegations = record { key = bytes "r"; entries = row 5 ∷ row 6 ∷ [] } ∷ [];
  unbondings = record { key = bytes "u"; entries = row 7 ∷ [] } ∷ [];
  infos = record { address = bytes "c"; start_height = 8; rest = [] } ∷ [];
  validator = record { unbonding_height = 4; jailed = false; rest = bytes "v" };
}

-- Another validator alone may stay.
abbrev allowed : List Bytes
allowed = bytes "w" ∷ []

abbrev ready : Store
ready = (prep_for_zero_height_genesis toy 9 allowed start).1

prepares : prep_for_zero_height_genesis toy 9 allowed start ≡ (ok tt, ready)
unfolding prep_for_zero_height_genesis check_allowed handle_distribution withdraw_validator
    withdraw_delegation reinit_validator reinit_delegation reset_all_redelegations
    reset_redelegation reset_all_unbondings reset_unbonding reset_all_validators reset_validator
    reset finish reset_all_signing_infos reset_signing_info is_listed each bytes_equal
prepares = refl

prep-Prepared_example : Prepared toy allowed 9 start ready
prep-Prepared_example = prep-Prepared toy allowed toy-IsStore 9 start ready prepares

abbrev reset_start : Store
reset_start = (reset_all_validators toy allowed start).1

resets : reset_all_validators toy allowed start ≡ (ok tt, reset_start)
unfolding reset_all_validators reset_validator reset is_listed each bytes_equal
resets = refl

-- ===== src/App/Export/Validators.antt =====
-- The validators after the loop over the validator store.
use gnodi.Base.{
  ap, refl, sym, ◌∙◌, subst, arith, ◌≡◌, ◌≢◌, true, false, not, ◌&&◌, Bool-cases, inl, inr, ◌⊎◌,
  List, [], ◌∷◌, some, All,
}
use gnodi.Base.Text.{Bytes, bytes_equal, bytes_equal_iff}
use gnodi.Base.Partial.{some_inj}
use gnodi.Base.Result.{ok}
use gnodi.Base.Action.{try-ok, have-then, each-rule}
use gnodi.App.Export.Env.{Keepers, Validator, panicked}
use gnodi.App.Export.{some_given, is_listed, reset, reset_validator, reset_all_validators}
use gnodi.App.Export.ZeroHeight.{IsStore}

-- A second reset changes nothing.
reset_twice :
    {R : Type 0} (allowed : List Bytes) (addr : Bytes) (v : Validator R)
    → reset allowed addr (reset allowed addr v) ≡ reset allowed addr v
unfolding reset
reset_twice allowed addr v =
    elim (Bool-cases (some_given allowed && not (is_listed addr allowed))) [
      | inl e ↦ rw e
      | inr e ↦ rw e
    ]

is_listed_self : (a : Bytes) (l : List Bytes) → is_listed a (a ∷ l) ≡ true
unfolding is_listed
is_listed_self a l = rw ((bytes_equal_iff a a).1 refl)

is_listed_later : (a b : Bytes) (l : List Bytes) → is_listed a l ≡ true → is_listed a (b ∷ l) ≡ true
unfolding is_listed
is_listed_later a b l h = ground arith

is_listed_rest :
    (a b : Bytes) (l : List Bytes) → a ≢ b → is_listed a (b ∷ l) ≡ true → is_listed a l ≡ true
unfolding is_listed
is_listed_rest a b l n h = ground (arith, bytes_equal_iff a b)

module _ (k : Keepers) (allowed : List Bytes) (before : k.State) where
  open k use {State, Rest, val_address_to_string, get_validator, set_validator, validator_keys}

  -- The validator of this key was there, and is what the reset makes of it.
  abbrev pub IsReset : Bytes → State → Type 0
  IsReset key s =
      (v : Validator Rest) × (addr : Bytes) × (get_validator key before ≡ some v)
      × (val_address_to_string key ≡ some addr)
      × (get_validator key s ≡ some (reset allowed addr v))

  abbrev Progress : State → Type 0
  Progress s = (key : Bytes) → (get_validator key s ≡ get_validator key before) ⊎ IsReset key s

  abbrev Due : List Bytes → List Bytes → State → Type 0
  Due keys left s = All (λ key. IsReset key s ⊎ (is_listed key left ≡ true)) keys

  all-Due :
      (keys left : List Bytes) (s : State)
      → ((a : Bytes) → is_listed a keys ≡ true → is_listed a left ≡ true)
      → Due keys left s
  all-Due [] left s h = tt
  all-Due (a ∷ keys) left s h = (
    inr (h a (is_listed_self a keys)),
    all-Due keys left s (λ b l. h b (is_listed_later b a keys l)),
  )

  none-Due : (keys : List Bytes) (s : State) → Due keys [] s → All (λ key. IsReset key s) keys
  unfolding is_listed
  none-Due [] s d = tt
  none-Due (a ∷ keys) s (inl r, d) = (r, none-Due keys s d)
  none-Due (a ∷ keys) s (inr e, d) = cc

  module _ (store : IsStore k) where
    -- One key: it is reset, and the others stay as they were.
    reset_validator-IsReset :
        (key : Bytes) (s : State) {s' : State}
        → Progress s
        → reset_validator k allowed key s ≡ (ok tt, s')
        → IsReset key s'
          × ((other : Bytes) → other ≢ key → get_validator other s' ≡ get_validator other s)
    unfolding reset_validator reset
    reset_validator-IsReset key s {s' = s'} p h =
        let (v, e, h1) = have-then s (get_validator key s) panicked _ h in
        let (addr, e1, h2) = have-then s (val_address_to_string key) panicked _ h1 in
        let w = try-ok (set_validator (reset allowed addr v)) panicked s h2 in
        by_progress v addr e e1 w (p key)
      where
        by_progress :
            (v : Validator Rest) (addr : Bytes)
            → get_validator key s ≡ some v
            → val_address_to_string key ≡ some addr
            → set_validator (reset allowed addr v) s ≡ (some tt, s')
            → (get_validator key s ≡ get_validator key before) ⊎ IsReset key s
            → IsReset key s'
              × ((other : Bytes) → other ≢ key → get_validator other s' ≡ get_validator other s)
        by_progress v addr e e1 w (inl same) =
            let (now, others) = store.validator_set key v 0 _ s s' e w in
            ((v, addr, sym same ∙ e, e1, now), others)
        by_progress v addr e e1 w (inr (v0, addr0, d0, d1, d2)) =
            let (now, others) = store.validator_set key v 0 _ s s' e w in
            ((v0, addr0, d0, d1, now ∙ ap some (again v0 addr0 d1 d2)), others)
          where
            again :
                (v0 : Validator Rest) (addr0 : Bytes)
                → val_address_to_string key ≡ some addr0
                → get_validator key s ≡ some (reset allowed addr0 v0)
                → reset allowed addr v ≡ reset allowed addr0 v0
            again v0 addr0 d1 d2 =
                subst (λ a. reset allowed a v ≡ reset allowed addr0 v0) (some_inj (sym d1 ∙ e1))
                  (ap (reset allowed addr0) (some_inj (sym e ∙ d2)) ∙ reset_twice allowed addr0 v0)

    abbrev Round : List Bytes → List Bytes → State → Type 0
    Round keys left s = Progress s × Due keys left s

    round :
        (keys : List Bytes) (key : Bytes) (left : List Bytes) (s s1 : State)
        → Round keys (key ∷ left) s
        → reset_validator k allowed key s ≡ (ok tt, s1)
        → Round keys left s1
    round keys key left s s1 (p, d) h =
        let (done, others) = reset_validator-IsReset key s p h in
        (λ a. progress done others a (Bool-cases (bytes_equal a key)), due done others keys d)
      where
        unlike : (a : Bytes) → bytes_equal a key ≡ false → a ≢ key
        unlike a e h = cc ((bytes_equal_iff a key).1 h)

        progress :
            IsReset key s1
            → ((other : Bytes) → other ≢ key → get_validator other s1 ≡ get_validator other s)
            → (a : Bytes) → (bytes_equal a key ≡ true) ⊎ (bytes_equal a key ≡ false)
            → (get_validator a s1 ≡ get_validator a before) ⊎ IsReset a s1
        progress done others a (inl e) =
            inr (subst (λ b. IsReset b s1) (sym ((bytes_equal_iff a key).0 e)) done)
        progress done others a (inr e) = elim (p a) [
          | inl same ↦ inl (others a (unlike a e) ∙ same)
          | inr (v, addr, d0, d1, d2) ↦ inr (v, addr, d0, d1, others a (unlike a e) ∙ d2)
        ]

        one :
            IsReset key s1
            → ((other : Bytes) → other ≢ key → get_validator other s1 ≡ get_validator other s)
            → (a : Bytes) → (bytes_equal a key ≡ true) ⊎ (bytes_equal a key ≡ false)
            → IsReset a s ⊎ (is_listed a (key ∷ left) ≡ true)
            → IsReset a s1 ⊎ (is_listed a left ≡ true)
        one done others a (inl e) q =
            inl (subst (λ b. IsReset b s1) (sym ((bytes_equal_iff a key).0 e)) done)
        one done others a (inr e) (inl (v, addr, d0, d1, d2)) =
            inl (v, addr, d0, d1, others a (unlike a e) ∙ d2)
        one done others a (inr e) (inr q) = inr (is_listed_rest a key left (unlike a e) q)

        due :
            IsReset key s1
            → ((other : Bytes) → other ≢ key → get_validator other s1 ≡ get_validator other s)
            → (l : List Bytes) → Due l (key ∷ left) s
            → Due l left s1
        due done others [] d = tt
        due done others (a ∷ l) (q, d) =
            (one done others a (Bool-cases (bytes_equal a key)) q, due done others l d)

    -- On stores that hold what is set, if the loop over the validator store ends well, then for
    -- every key the validator that was there has unbonding height 0, and is jailed where a list of
    -- allowed addresses is given without its address, and otherwise as it was.
    pub reset_all_validators-IsReset :
        {s' : State}
        → reset_all_validators k allowed before ≡ (ok tt, s')
        → All (λ key. IsReset key s') (validator_keys before)
    unfolding reset_all_validators
    reset_all_validators-IsReset h =
        let keys = validator_keys before in
        none-Due keys _
          (each-rule (reset_validator k allowed) (Round keys) (round keys) keys before
            (λ a. inl refl, all-Due keys keys before (λ a e. e)) h).1

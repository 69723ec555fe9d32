-- ===== src/Distro/Params/Validity.antt =====
-- Which parameters the two validations accept.
use gnodi.Base.{ℕ, ◌||◌, refl, ◌≡◌, ◌<◌, ◌↔◌, true, false, [], ◌∷◌, arith}
use gnodi.Base.Text.{Bytes}
use gnodi.Base.Result.{ok}
use gnodi.Calendar.Text.{parse_date, four_digits}
use gnodi.Distro.Params.{Params, SdkTypes, is_empty, is_some}
use gnodi.Distro.Params.{
  validate, validate_genesis, validate_genesis_address, validate_minting_address,
  validate_receiving_address, validate_denom_param, validate_max_supply,
  validate_distribution_start_date, validate_months_in_halving_period,
}

module _ (sdk : SdkTypes) where
  open sdk use {acc_address_from_bech32, validate_denom}

  -- What a chain needs of its parameters to mint.
  pub record IsValid (p : Params) : Type 0 where
    pub minter : is_some (acc_address_from_bech32 p.minting_address) ≡ true
    pub minter_set : is_empty p.minting_address ≡ false
    pub receiver : is_some (acc_address_from_bech32 p.receiving_address) ≡ true
    pub receiver_set : is_empty p.receiving_address ≡ false
    pub denom_fits : validate_denom p.denom ≡ true
    pub has_supply : 0 < p.max_supply
    pub starts : is_some (parse_date p.distribution_start_date) ≡ true
    pub has_months : 0 < p.months_in_halving_period

  -- What a genesis file needs: an address is empty or valid, and the supply is not looked at.
  pub record IsAdmissible (p : Params) : Type 0 where
    pub minter :
        (is_empty p.minting_address || is_some (acc_address_from_bech32 p.minting_address)) ≡ true
    pub receiver :
        (is_empty p.receiving_address || is_some (acc_address_from_bech32 p.receiving_address))
        ≡ true
    pub denom_fits : validate_denom p.denom ≡ true
    pub starts : is_some (parse_date p.distribution_start_date) ≡ true
    pub has_months : 0 < p.months_in_halving_period

  validate-IsValid : (p : Params) → validate sdk p ≡ ok tt → IsValid p
  unfolding validate validate_minting_address validate_receiving_address validate_denom_param
      validate_max_supply validate_distribution_start_date validate_months_in_halving_period
  validate-IsValid p h = record {
    minter = ground arith;
    minter_set = ground arith;
    receiver = ground arith;
    receiver_set = ground arith;
    denom_fits = ground arith;
    has_supply = ground arith;
    starts = ground arith;
    has_months = ground arith;
  }

  start_date_ok :
      (v : Bytes) → is_some (parse_date v) ≡ true → validate_distribution_start_date v ≡ ok tt
  unfolding validate_distribution_start_date parse_date four_digits
  start_date_ok [] h = cc
  start_date_ok (c ∷ v) h = rw h

  IsValid-validate : (p : Params) → IsValid p → validate sdk p ≡ ok tt
  unfolding validate validate_minting_address validate_receiving_address validate_denom_param
      validate_max_supply validate_months_in_halving_period
  IsValid-validate p h = ground (arith, start_date_ok p.distribution_start_date h.starts)

  -- `Params.Validate` accepts exactly the parameters whose two addresses are set and valid bech32,
  -- whose denomination is valid, whose start date parses, and whose supply and number of months
  -- are not 0.
  pub validate_iff : (p : Params) → (validate sdk p ≡ ok tt) ↔ IsValid p
  validate_iff p = (validate-IsValid p, IsValid-validate p)

  genesis-IsAdmissible :
      (p : Params) → validate_genesis sdk (record { params = p }) ≡ ok tt → IsAdmissible p
  unfolding validate_genesis validate_genesis_address validate_denom_param
      validate_distribution_start_date validate_months_in_halving_period
  genesis-IsAdmissible p h = record {
    minter = ground arith;
    receiver = ground arith;
    denom_fits = ground arith;
    starts = ground arith;
    has_months = ground arith;
  }

  IsAdmissible-genesis :
      (p : Params) → IsAdmissible p → validate_genesis sdk (record { params = p }) ≡ ok tt
  unfolding validate_genesis validate_genesis_address validate_denom_param
      validate_months_in_halving_period
  IsAdmissible-genesis p h = ground (arith, start_date_ok p.distribution_start_date h.starts)

  -- `GenesisState.Validate` accepts exactly the parameters whose addresses are each empty or valid
  -- bech32, whose denomination is valid, whose start date parses and whose number of months is not
  -- 0.
  pub validate_genesis_iff :
      (p : Params) → (validate_genesis sdk (record { params = p }) ≡ ok tt) ↔ IsAdmissible p
  validate_genesis_iff p = (genesis-IsAdmissible p, IsAdmissible-genesis p)

  -- `Params.Validate` accepts exactly what `GenesisState.Validate` accepts with both addresses set
  -- and a supply that is not 0.
  pub validate_iff_genesis :
      (p : Params)
      → (validate sdk p ≡ ok tt) ↔ (
          (validate_genesis sdk (record { params = p }) ≡ ok tt)
          × (is_empty p.minting_address ≡ false)
          × (is_empty p.receiving_address ≡ false)
          × (0 < p.max_supply))
  validate_iff_genesis p = (there, back)
    where
      there :
          validate sdk p ≡ ok tt
          → (validate_genesis sdk (record { params = p }) ≡ ok tt)
            × (is_empty p.minting_address ≡ false)
            × (is_empty p.receiving_address ≡ false)
            × (0 < p.max_supply)
      there h =
          let v = validate-IsValid p h in
          (IsAdmissible-genesis p (ground arith), v.minter_set, v.receiver_set, v.has_supply)

      back :
          (validate_genesis sdk (record { params = p }) ≡ ok tt)
            × (is_empty p.minting_address ≡ false)
            × (is_empty p.receiving_address ≡ false)
            × (0 < p.max_supply)
          → validate sdk p ≡ ok tt
      back (g, m, r, s) = let a = genesis-IsAdmissible p g in IsValid-validate p (ground arith)

  -- The supply in a genesis file is not validated: any supply, 0 too, gives the same answer.
  pub validate_genesis_ignores_supply :
      (p : Params) (n : ℕ)
      → validate_genesis sdk (record { params = record p { max_supply = n } })
        ≡ validate_genesis sdk (record { params = p })
  unfolding validate_genesis
  validate_genesis_ignores_supply p n = refl

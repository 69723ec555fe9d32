-- ===== src/Distro/Module/Genesis.antt =====
-- What the genesis of x/distro carries over, and what a chain with the default genesis can mint.
use gnodi.Base.Partial.{some_inj}
use gnodi.Base.{
  ap, subst, ◌≡◌, ◌≢◌, refl, sym, ◌∙◌, arith, true, Option, none, some, ⊤, ◌⊎◌, inl, inr,
}
use gnodi.Base.Text.{Bytes, bytes}
use gnodi.Base.Result
use gnodi.Calendar.{Date, days_in, days_in_month, is_leap}
use gnodi.Calendar.Text.{parse_date, four_digits, two_digits, skip_dash, at_end}
use gnodi.Distro.Params.{GenesisState, default_genesis, default_params, default_denom, new_params}
use gnodi.Distro.Params.Validity.{IsAdmissible, validate_genesis_iff}
use gnodi.Distro.Outcome.{
  Outcome, ok, err, panic, invalid_signer_address, unauthorized, or_panic, or_panic-ok,
}
use gnodi.Distro.Keeper.Env.{Keeper, Action, IsLawful, found, lift-ok, bind_done, lift}
use gnodi.Distro.Keeper.{MsgMint, mint, init_genesis, export_genesis}
use gnodi.Distro.Keeper.Refusal.{mint_unauthorized}
use gnodi.Distro.Keeper.Update.{export_genesis-init_genesis}
use gnodi.Distro.Module.{
  JsonCodec, IsFaithful, must, default_genesis_json, validate_genesis_json, init_genesis_json,
  export_genesis_json,
}

must-ok :
    {S : Type 0} (m : Action S ⊤) (s : S) {s' : S} → must m s ≡ (ok tt, s') → m s ≡ (ok tt, s')
must-ok {S} m s h = by_result (m s) h
  where
    by_result : (r : Outcome ⊤ × S) {s' : S} → must (λ _. r) s ≡ (ok tt, s') → r ≡ (ok tt, s')
    by_result (ok _, t) h = h
    by_result (err e, t) h = cc
    by_result (panic, t) h = cc

must_done :
    {S A : Type 0} (m : Action S A) (s : S) {a : A} {s' : S}
    → m s ≡ (ok a, s')
    → must m s ≡ (ok a, s')
must_done m s e = ap (λ r. must (λ _. r) s) e

empty_address : {o : Option Bytes} (b : Bytes) → o ≡ none → o ≢ some b
empty_address b e h = cc

module _ (k : Keeper) (cdc : JsonCodec) where
  open k use {State, string_to_bytes, params_get, sdk}
  open cdc use {marshal, unmarshal}

  -- On a keeper that is lawful, with a JSON codec that reads back what it writes: after an
  -- `InitGenesis` of a text that reads as a genesis state, `ExportGenesis` writes the JSON of that
  -- state, which reads as it, and leaves the chain as it is.
  pub export_genesis_json-init_genesis_json :
      IsLawful k
      → IsFaithful cdc
      → (gs : GenesisState) (bz out : Bytes) (s s' : State) → unmarshal bz ≡ some gs
      → marshal gs ≡ some out
      → init_genesis_json k cdc bz s ≡ (ok tt, s')
      → (export_genesis_json k cdc s' ≡ (ok out, s')) × (unmarshal out ≡ some gs)
  unfolding init_genesis_json export_genesis_json
  export_genesis_json-init_genesis_json laws faithful gs bz out s s' e1 e2 h =
      let (gs', d, h1) = lift-ok s (or_panic (unmarshal bz)) _ h in
      let same = some_inj (sym (or_panic-ok (unmarshal bz) d) ∙ e1) in
      let stored =
        subst (λ g. init_genesis k g s ≡ (ok tt, s')) same (must-ok (init_genesis k gs') s h1) in
      let exported = (export_genesis-init_genesis k laws gs s s' stored).0 in
      (
        bind_done (must (export_genesis k)) (λ g. lift (or_panic (marshal g))) s'
              (must_done (export_genesis k) s' exported)
            ∙ rw e2,
        faithful gs out e2,
      )

  default-IsAdmissible : sdk.validate_denom default_denom ≡ true → IsAdmissible sdk default_params
  unfolding default_params new_params parse_date four_digits two_digits skip_dash at_end days_in
      is_leap days_in_month
  default-IsAdmissible e = record {
    minter = refl;
    receiver = refl;
    denom_fits = e;
    starts = refl;
    has_months = omega arith;
  }

  -- With a JSON codec that reads back what it writes, the default genesis of the module passes its
  -- own validation if "uGNOD" is a denomination to the SDK.
  pub validate_genesis_json-default_genesis_json :
      IsFaithful cdc
      → (bz : Bytes) → sdk.validate_denom default_denom ≡ true
      → default_genesis_json k cdc ≡ ok bz
      → validate_genesis_json k cdc bz ≡ Result.ok tt
  unfolding validate_genesis_json default_genesis_json default_genesis
  validate_genesis_json-default_genesis_json faithful bz e h = rw (
    validate_genesis_json,
    faithful default_genesis bz (or_panic-ok (marshal default_genesis) h),
    (validate_genesis_iff sdk default_params).1 (default-IsAdmissible e),
  )

module _ (k : Keeper) where
  open k use {State, string_to_bytes, params_get}

  -- With the default parameters stored and a codec that refuses the empty address, every `Mint`
  -- fails, as an invalid signer or as unauthorized, and the state stays.
  pub mint_default :
      string_to_bytes (bytes "") ≡ none
      → (t : Date) (msg : MsgMint) (s : State) → params_get s ≡ found default_params
      → (mint k t msg s ≡ (err invalid_signer_address, s))
        ⊎ (mint k t msg s ≡ (err unauthorized, s))
  unfolding mint default_params new_params
  mint_default e t msg s stored = by_signer (string_to_bytes msg.signer) refl
    where
      by_signer :
          (o : Option Bytes)
          → string_to_bytes msg.signer ≡ o
          → (mint k t msg s ≡ (err invalid_signer_address, s))
            ⊎ (mint k t msg s ≡ (err unauthorized, s))
      by_signer none d = inl (rw d)
      by_signer (some b) d =
          inr (mint_unauthorized k t msg s default_params b d stored (empty_address b e))

-- ===== src/Distro/Keeper/Update.antt =====
-- What `UpdateParams` accepts and does, and what genesis and the query read back.
use gnodi.Base.{ap, ◌≡◌, ◌↔◌, refl, sym, ◌∙◌, arith, not, some, ⊤, ◌⊎◌, inr}
use gnodi.Base.Text.{Bytes, bytes_equal, bytes_equal_iff}
use gnodi.Base.Result
use gnodi.Distro.Params.{GenesisState, ParamsError, validate}
use gnodi.Distro.Params.Validity.{IsValid, validate_iff}
use gnodi.Distro.Outcome.{ok, Error, or_fail, fail_if, or_fail-ok}
use gnodi.Distro.Outcome.{invalid_authority_address, invalid_signer, store_failure}
use gnodi.Distro.Keeper.Env.{
  Keeper, IsLawful, found, done, lift-ok, last_call-ok, call_done, Untouched-lift,
}
use gnodi.Distro.Keeper.{
  MsgUpdateParams, of_validation, or_empty, update_params, init_genesis, export_genesis,
  query_params,
}

of_validation-ok : (r : Result.Result ParamsError ⊤) → of_validation r ≡ ok tt → r ≡ Result.ok tt
of_validation-ok (Result.ok _) h = refl
of_validation-ok (Result.err e) h = cc

same_bytes : (a b : Bytes) (e : Error) → fail_if (not (bytes_equal a b)) e ≡ ok tt → a ≡ b
same_bytes a b e h = (bytes_equal_iff a b).0 (ground arith)

module _ (k : Keeper) where
  open k use {State, string_to_bytes, params_get, params_set, get_supply, sdk}

  -- What an update needs before it writes.
  abbrev pub MayUpdate : MsgUpdateParams → Type 0
  MayUpdate req = (string_to_bytes req.authority ≡ some k.authority) × IsValid sdk req.params

  update-accepted :
      (req : MsgUpdateParams) (s s' : State)
      → update_params k req s ≡ (ok tt, s')
      → MayUpdate req × (params_set req.params s ≡ (done, s'))
  unfolding update_params
  update-accepted req s s' h =
      let (a, e1, h1) =
        lift-ok s (or_fail (string_to_bytes req.authority) invalid_authority_address) _ h in
      let refusal = invalid_signer (or_empty (k.bytes_to_string k.authority)) in
      let (u, e2, h2) = lift-ok s (fail_if (not (bytes_equal k.authority a)) refusal) _ h1 in
      let (v, e3, h3) = lift-ok s (of_validation (validate sdk req.params)) _ h2 in
      let same = same_bytes k.authority a refusal e2 in
      (
        (
          or_fail-ok (string_to_bytes req.authority) invalid_authority_address e1
              ∙ ap some (sym same),
          (validate_iff sdk req.params).0 (of_validation-ok (validate sdk req.params) e3),
        ),
        last_call-ok (params_set req.params s) store_failure h3,
      )

  accepted-update :
      (req : MsgUpdateParams) (s s' : State)
      → MayUpdate req
      → params_set req.params s ≡ (done, s')
      → update_params k req s ≡ (ok tt, s')
  unfolding update_params
  accepted-update req s s' (e, v) w =
      rw (e, (bytes_equal_iff k.authority k.authority).1 refl, (validate_iff sdk req.params).1 v)
        (call_done (params_set req.params) store_failure s w)

  -- An update ends well exactly when its authority decodes to the authority of the keeper, its
  -- parameters are valid and the store takes them; the state is then the one the store returned.
  pub update_params_iff :
      (req : MsgUpdateParams) (s s' : State)
      → (update_params k req s ≡ (ok tt, s'))
        ↔ (MayUpdate req × (params_set req.params s ≡ (done, s')))
  update_params_iff req s s' = (update-accepted req s s', λ (m, w). accepted-update req s s' m w)

  -- What an update that passes leaves behind.
  pub record Updated (req : MsgUpdateParams) (s s' : State) : Type 0 where
    pub allowed : MayUpdate req
    pub stored : params_get s' ≡ found req.params
    pub supplies : (denom : Bytes) → get_supply denom s' ≡ get_supply denom s

  -- An update leaves the state as it was, unless its authority decodes to the authority of the
  -- keeper and its parameters are valid.
  pub update_params_untouched :
      (req : MsgUpdateParams) (s : State) → ((update_params k req s).1 ≡ s) ⊎ MayUpdate req
  unfolding update_params
  update_params_untouched req s =
      Untouched-lift s (or_fail (string_to_bytes req.authority) invalid_authority_address) _
        (λ a e1. Untouched-lift s (fail_if (not (bytes_equal k.authority a)) refusal) _ (λ _ e2.
          Untouched-lift s (of_validation (validate sdk req.params)) _ (λ _ e3. inr (
            or_fail-ok (string_to_bytes req.authority) invalid_authority_address e1
                ∙ ap some (sym (same_bytes k.authority a refusal e2)),
            (validate_iff sdk req.params).0 (of_validation-ok (validate sdk req.params) e3),
          ))))
    where
      refusal : Error
      refusal = invalid_signer (or_empty (k.bytes_to_string k.authority))

  module _ (laws : IsLawful k) where
    -- On a keeper that is lawful, after an update that ended well the parameters of the message
    -- are stored, they are valid, the sender was the authority, and no supply has changed.
    pub update_params-Updated :
        (req : MsgUpdateParams) (s s' : State)
        → update_params k req s ≡ (ok tt, s')
        → Updated req s s'
    update_params-Updated req s s' h =
        let (m, w) = update-accepted req s s' h in
        record {
          allowed = m;
          stored = laws.set_params req.params s s' w;
          supplies = λ d. laws.set_supply req.params d s s' w;
        }

    -- On a keeper that is lawful, after an `InitGenesis` that ended well `ExportGenesis` gives the
    -- same genesis state and the query its parameters, and neither changes the state.
    pub export_genesis-init_genesis :
        (gs : GenesisState) (s s' : State)
        → init_genesis k gs s ≡ (ok tt, s')
        → (export_genesis k s' ≡ (ok gs, s')) × (query_params k (some tt) s' ≡ (ok gs.params, s'))
    unfolding init_genesis export_genesis query_params
    export_genesis-init_genesis gs s s' h =
        let stored =
          laws.set_params gs.params s s' (last_call-ok (params_set gs.params s) store_failure h) in
        (rw stored, rw stored)

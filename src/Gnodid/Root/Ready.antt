-- ===== src/Gnodid/Root/Ready.antt =====
-- What a command runs with.
use gnodi.Base.{
  refl, sym, ap, subst, ◌≡◌, Bool, true, false, not, [], ◌∷◌, ◌++◌, some, if◌then◌else◌,
}
use gnodi.Base.Result.{Result, ok, err}
use gnodi.Base.Action.{pure, bind-ok, try-ok, have-then, try-then}
use gnodi.Gnodid.Root.{
  RootSdk, PreRunError, bad_flags, bad_client_config, bad_tx_config, context_not_set,
  not_intercepted, init_app_config, init_comet_bft_config, with_textual, tx_context, install,
  persistent_pre_run,
}

module _ (k : RootSdk) where
  open k use {State, Ctx, Flags, TxConfig}

  -- The context that a command is given, made from the one that was configured.
  pub record IsSigning (configured given : Ctx) : Type 0 where
    pub offline : k.offline configured ≡ true → given ≡ configured
    pub online :
        k.offline configured ≡ false
        → (tx_config : TxConfig) × (k.new_tx_config
              (k.codec configured)
              (k.default_sign_modes ++ k.sign_mode_textual ∷ [])
              (k.new_grpc_coin_metadata_query configured)
            ≡ some tx_config)
          × (given ≡ k.with_tx_config tx_config configured)

  pub record IsReady (flags : Flags) (ctx : Ctx) (s s' : State) : Type 0 where
    pub flagged : Ctx
    pub reads_flags :
        k.read_persistent_command_flags flags (k.with_cmd_context s ctx) ≡ some flagged
    pub configured : Ctx
    pub s1 : State
    pub reads_config : k.read_from_client_config flagged s ≡ (some configured, s1)
    pub given : Ctx
    pub signing : IsSigning configured given
    pub s2 : State
    pub sets : k.set_cmd_client_context given s1 ≡ (some tt, s2)
    pub intercepts :
        k.intercept_configs k.default_config_template k.default_server_config k.default_cmt_config
          s2
        ≡ (some tt, s')

  tx_context-IsSigning :
      (ctx given : Ctx) (s s' : State)
      → tx_context k ctx s ≡ (ok given, s')
      → (s ≡ s') × IsSigning ctx given
  unfolding tx_context with_textual
  tx_context-IsSigning ctx given s s' h = by_mode (k.offline ctx) refl h
    where
      apart : {b : Bool} → b ≡ true → b ≡ false → ⊥
      apart e f = cc

      same_ctx :
          {a b : Ctx} {t u : State}
          → ◌≡◌ {A = Result PreRunError Ctx × State} (ok a, t) (ok b, u)
          → b ≡ a
      same_ctx {a = a} h = sym (ap (λ r. elim r.0 [ ok x ↦ x | err _ ↦ a ]) h)

      by_mode :
          (b : Bool)
          → k.offline ctx ≡ b
          → (if not b then with_textual k ctx else pure ctx) s ≡ (ok given, s')
          → (s ≡ s') × IsSigning ctx given
      by_mode true e h =
          (ap (λ r. r.1) h, record { offline = λ _. same_ctx h; online = λ d. absurd (apart e d) })
      by_mode false e h =
          let (tx_config, e1, h1) =
            have-then s
              (k.new_tx_config (k.codec ctx) (k.default_sign_modes ++ k.sign_mode_textual ∷ [])
                (k.new_grpc_coin_metadata_query ctx))
              bad_tx_config _ h in
          (
            ap (λ r. r.1) h1,
            record {
              offline = λ d. absurd (apart d e);
              online = λ _. (tx_config, e1, same_ctx h1);
            },
          )

  -- A run that ended well has read the flags and then the client configuration. The command has the
  -- context that these gave: as it is when it is offline, and with a signing configuration that also
  -- knows the textual mode, over the metadata of that context, when it is online. Last the server
  -- was given the default configurations, from the state in which the context was set.
  pub persistent_pre_run-IsReady :
      (flags : Flags) (ctx : Ctx) (s s' : State)
      → persistent_pre_run k flags ctx s ≡ (ok tt, s')
      → IsReady flags ctx s s'
  unfolding persistent_pre_run install init_app_config init_comet_bft_config
  persistent_pre_run-IsReady flags ctx s s' h =
      let (flagged, e1, h1) =
        have-then s (k.read_persistent_command_flags flags (k.with_cmd_context s ctx)) bad_flags _
          h in
      let (configured, e2, h2) =
        try-then (k.read_from_client_config flagged s) bad_client_config _ h1 in
      let s1 = (k.read_from_client_config flagged s).1 in
      let (given, t, e3, h3) = bind-ok (tx_context k configured) (install k) s1 h2 in
      let (same, signing) = tx_context-IsSigning configured given s1 t e3 in
      let (u, e4, h4) = try-then (k.set_cmd_client_context given t) context_not_set _ h3 in
      let t2 = (k.set_cmd_client_context given t).1 in
      record {
        flagged = flagged;
        reads_flags = e1;
        configured = configured;
        s1 = s1;
        reads_config = e2;
        given = given;
        signing = signing;
        s2 = t2;
        sets = subst (λ x. k.set_cmd_client_context given x ≡ (some tt, t2)) (sym same) e4;
        intercepts =
            try-ok
              (k.intercept_configs k.default_config_template k.default_server_config
                k.default_cmt_config)
              not_intercepted t2 h4;
      }

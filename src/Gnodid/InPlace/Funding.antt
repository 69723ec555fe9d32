-- ===== src/Gnodid/InPlace/Funding.antt =====
-- The accounts that an in-place testnet funds, and what an empty list of them does.
use gnodi.Base.{
  ap, sym, ◌∙◌, subst, arith, ℕ, ◌+◌, ◌*◌, ◌≡◌, ◌≢◌, List, [], ◌∷◌, length, Option, some, none, All,
}
use gnodi.Base.Text.{Bytes}
use gnodi.Base.Result.{ok}
use gnodi.Base.Action.{bind-ok, have-then, try-ok, try-then, each, ◌>>◌}
use gnodi.Gnodid.Strings.{split}
use gnodi.Gnodid.InPlace.Args.{
  ValArgs, Value, Key, get_command_args, get_command_args-accounts_to_fund, accounts_to_fund,
}
use gnodi.Gnodid.InPlace.{
  Keepers, exited, fund_account, fund_accounts, init_app_for_testnet, remove_validators,
  add_validator, new_validator, add_signing_info,
}

module _ (k : Keepers) where
  open k use {
    State, Coins, acc_address_to_bytes, mint_coins, send_coins, bond_denom, new_coins,
    val_address_to_bytes, new_any,
  }

  -- Minting raises the supply by the coins, and sending leaves it.
  pub record IsBank (amount : Coins → ℕ) (supply : State → ℕ) : Type 0 where
    pub minted :
        (c : Coins) (s s' : State)
        → mint_coins c s ≡ (some tt, s')
        → supply s' ≡ supply s + amount c
    pub sent :
        (a : Bytes) (c : Coins) (s s' : State)
        → send_coins a c s ≡ (some tt, s')
        → supply s' ≡ supply s

  -- Every account that was funded decodes.
  abbrev pub Decoded : List Bytes → Type 0
  Decoded = All (λ account. (addr : Bytes) × (acc_address_to_bytes account ≡ some addr))

  module _ (amount : Coins → ℕ) (supply : State → ℕ) (bank : IsBank amount supply) where
    fund_account-ok :
        (c : Coins) (account : Bytes) (s : State) {s' : State}
        → fund_account k c account s ≡ (ok tt, s')
        → ((addr : Bytes) × (acc_address_to_bytes account ≡ some addr))
          × (supply s' ≡ supply s + amount c)
    unfolding fund_account
    fund_account-ok c account s h =
        let (u, e, h1) = try-then (mint_coins c s) exited _ h in
        let s1 = (mint_coins c s).1 in
        let (addr, e1, h2) = have-then s1 (acc_address_to_bytes account) exited _ h1 in
        (
          (addr, e1),
          bank.sent addr c s1 _ (try-ok (send_coins addr c) exited s1 h2) ∙ bank.minted c s s1 e,
        )

    funded :
        (c : Coins) (l : List Bytes) (s : State) {s' : State}
        → each (fund_account k c) l s ≡ (ok tt, s')
        → Decoded l × (supply s' ≡ supply s + length l * amount c)
    unfolding each
    funded c [] s h = (tt, ap supply (sym (ap (λ r. r.1) h)) ∙ omega arith)
    funded c (a ∷ l) s h =
        let (u, s1, e, h1) = bind-ok (fund_account k c a) (λ _. each (fund_account k c) l) s h in
        let (d, t) = fund_account-ok c a s e in
        let (ds, ts) = funded c l s1 h1 in ((d, ds), grind (arith, t, ts))

    -- Funding that ended well has decoded every account, and minted the coins once for each of them.
    pub fund_accounts-minted :
        (accounts : List Bytes) (s s' : State)
        → fund_accounts k accounts s ≡ (ok tt, s')
        → Decoded accounts
          × ((denom : Bytes) × (bond_denom s ≡ some denom)
              × (supply s' ≡ supply s + length accounts * amount (new_coins denom 1_000_000_000)))
    unfolding fund_accounts
    fund_accounts-minted accounts s s' h =
        let (denom, e, h1) = have-then s (bond_denom s) exited _ h in
        let (d, t) = funded (new_coins denom 1_000_000_000) accounts s h1 in (d, (denom, e, t))

  -- Without a bank: the addresses alone.
  each-Decoded :
      (c : Coins) (l : List Bytes) (s : State) {s' : State}
      → each (fund_account k c) l s ≡ (ok tt, s')
      → Decoded l
  unfolding each fund_account
  each-Decoded c [] s h = tt
  each-Decoded c (a ∷ l) s h =
      let (u, s1, e, h1) = bind-ok (fund_account k c a) (λ _. each (fund_account k c) l) s h in
      let (v, e1, h2) = try-then (mint_coins c s) exited _ e in
      let (addr, e2, h3) = have-then (mint_coins c s).1 (acc_address_to_bytes a) exited _ h2 in
      ((addr, e2), each-Decoded c l s1 h1)

  funding_decodes :
      (l : List Bytes) (s : State) {s' : State} → fund_accounts k l s ≡ (ok tt, s') → Decoded l
  unfolding fund_accounts
  funding_decodes l s h =
      let (denom, e, h1) = have-then s (bond_denom s) exited _ h in
      each-Decoded (new_coins denom 1_000_000_000) l s h1

  init_decodes :
      (args : ValArgs) (s : State) {s' : State}
      → init_app_for_testnet k args s ≡ (ok tt, s')
      → Decoded args.accounts_to_fund
  unfolding init_app_for_testnet
  init_decodes args s h =
      let (key, e, h0) = have-then s (new_any args.new_val_pub_key) exited _ h in
      let (addr, e1, h1) =
        have-then s (val_address_to_bytes args.new_operator_address) exited _ h0 in
      let last = fund_accounts k args.accounts_to_fund in
      let infos = add_signing_info k args.new_val_addr >> last in
      let rest = add_validator k (new_validator k args key) addr >> infos in
      let (u, s1, e2, h2) = bind-ok (remove_validators k) (λ _. rest) s h1 in
      let (v, s2, e3, h3) =
        bind-ok (add_validator k (new_validator k args key) addr) (λ _. infos) s1 h2 in
      let (w, s3, e4, h4) = bind-ok (add_signing_info k args.new_val_addr) (λ _. last) s2 h3 in
      funding_decodes args.accounts_to_fund s3 h4

  none≢some : {b : Bytes} → ◌≢◌ {A = Option Bytes} none (some b)
  none≢some h = cc

  -- If the flag for the accounts to fund is the empty text and the codec refuses the empty
  -- address, then with the arguments that are read from these flags setting up the testnet never
  -- ends well.
  pub init_app_for_testnet_unfunded :
      (to_text : Value → Bytes) (opts : Key → Value) (args : ValArgs)
      → get_command_args to_text opts ≡ ok args
      → to_text (opts accounts_to_fund) ≡ []
      → acc_address_to_bytes [] ≡ none
      → (s s' : State) → init_app_for_testnet k args s ≢ (ok tt, s')
  unfolding split
  init_app_for_testnet_unfunded to_text opts args h e refused s s' run =
      impossible (subst Decoded one_empty (init_decodes args s run))
    where
      one_empty : args.accounts_to_fund ≡ [] ∷ []
      one_empty = get_command_args-accounts_to_fund to_text opts args h ∙ ap split e

      impossible : Decoded ([] ∷ []) → ⊥
      impossible d = not_both d.0.0 d.0.1
        where
          not_both : (addr : Bytes) → acc_address_to_bytes [] ≡ some addr → ⊥
          not_both addr f = none≢some (sym refused ∙ f)

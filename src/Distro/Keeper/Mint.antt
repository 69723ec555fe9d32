-- ===== src/Distro/Keeper/Mint.antt =====
-- What a call of `Mint` does: on success, on the failures before it writes, and when it succeeds.
use gnodi.Base.{
  ℕ, ◌+◌, ◌≤◌, ◌≡◌, ap, subst, sym, ◌∙◌, arith, true, false, not, ltb, Option, none, some,
}
use gnodi.Base.Text.{Bytes, bytes_equal, bytes_equal_iff}
use gnodi.Calendar.{Date}
use gnodi.Distro.Params.{Params}
use gnodi.Distro.Outcome.{ok, or_fail, or_panic, fail_if}
use gnodi.Distro.Outcome.{
  params_not_initialized, unauthorized, max_supply_exceeded, invalid_signer_address,
  invalid_receiver, bank_failure, or_fail-ok, or_panic-ok,
}
use gnodi.Distro.Limits.{validate_minting_limits}
use gnodi.Distro.Keeper.Env.{Keeper, IsLawful, Stored, found, missing, corrupt}
use gnodi.Distro.Keeper.Env.{bind-ok, lift-ok, call-ok, last_call-ok}
use gnodi.Distro.Keeper.{
  MsgMint, module_name, found_params, is_authorized, check_amount, deposit_coins, mint_and_deposit,
  mint,
}

pub found-ok :
    (o : Stored) {p : Params} → or_fail (found_params o) params_not_initialized ≡ ok p → o ≡ found p
found-ok (found q) h = cc
found-ok missing h = cc
found-ok corrupt h = cc

module _ (k : Keeper) where
  open k use {
    State, Coins, string_to_bytes, params_get, get_supply, int_uint64, new_coins, mint_coins,
    send_coins, runtime,
  }

  -- The signer and the minting address of `p` decode to the same bytes.
  abbrev pub Authorized : MsgMint → Params → Type 0
  Authorized msg p =
      (signer : Bytes) × (string_to_bytes msg.signer ≡ some signer)
      × (string_to_bytes p.minting_address ≡ some signer)

  pub is_authorized_iff :
      (p : Params) (b : Bytes)
      → is_authorized k p b ≡ true
      → string_to_bytes p.minting_address ≡ some b
  unfolding is_authorized
  is_authorized_iff p b h = by_address (string_to_bytes p.minting_address) h
    where
      by_address :
          (o : Option Bytes)
          → elim o [ none ↦ false | some a ↦ bytes_equal a b ] ≡ true
          → o ≡ some b
      by_address none h = cc
      by_address (some a) h = cc ((bytes_equal_iff a b).0 h)

  -- What a successful call with the parameters `p` has done.
  pub record Minted (block_time : Date) (msg : MsgMint) (s s' : State) (p : Params) : Type 0 where
    pub stored : params_get s ≡ found p
    pub authorized : Authorized msg p
    pub under_maximum : get_supply p.denom s + msg.amount ≤ p.max_supply
    pub under_limit :
        validate_minting_limits runtime block_time (get_supply p.denom s) msg.amount p ≡ ok tt
    pub supply : get_supply p.denom s' ≡ get_supply p.denom s + msg.amount
    pub kept : params_get s' ≡ found p

  module _ (laws : IsLawful k) where
    deposit-ok :
        (a d : Bytes) (n : ℕ) (s s' : State)
        → deposit_coins k a n d s ≡ (ok tt, s')
        → ((e : Bytes) → get_supply e s' ≡ get_supply e s) × (params_get s' ≡ params_get s)
    unfolding deposit_coins
    deposit-ok a d n s s' h =
        let (account, e1, h1) = lift-ok s (or_fail (string_to_bytes a) invalid_receiver) _ h in
        let (coins, e2, h2) = lift-ok s (or_panic (new_coins d n)) _ h1 in
        let sent = last_call-ok (send_coins module_name account coins s) bank_failure h2 in
        (
          λ e. laws.send_supply module_name account e coins s s' sent,
          laws.send_params module_name account coins s s' sent,
        )

    writes-ok :
        (p : Params) (n : ℕ) (s s' : State)
        → mint_and_deposit k p n s ≡ (ok tt, s')
        → (get_supply p.denom s' ≡ get_supply p.denom s + n) × (params_get s' ≡ params_get s)
    unfolding mint_and_deposit
    writes-ok p n s s' h =
        let (coins, e1, h1) = lift-ok s (or_panic (new_coins p.denom n)) _ h in
        let (minted, h2) = call-ok (mint_coins module_name coins s) bank_failure _ h1 in
        let s1 = (mint_coins module_name coins s).1 in
        let (supplies, params) = deposit-ok p.receiving_address p.denom n s1 s' h2 in
        (
          supplies p.denom
              ∙ laws.mint_supply module_name p.denom n coins s s1
                  (or_panic-ok (new_coins p.denom n) e1) minted,
          params ∙ laws.mint_params module_name coins s s1 minted,
        )

    check-ok :
        (t : Date) (p : Params) (n : ℕ) (s s' : State)
        → check_amount k t p n s ≡ (ok tt, s')
        → (s ≡ s')
          × (get_supply p.denom s + n ≤ p.max_supply)
          × (validate_minting_limits runtime t (get_supply p.denom s) n p ≡ ok tt)
    unfolding check_amount
    check-ok t p n s s' h =
        let (supply, e1, h1) = lift-ok s (or_panic (int_uint64 (get_supply p.denom s))) _ h in
        let (u, e2, h2) =
          lift-ok s (fail_if (ltb p.max_supply (supply + n)) max_supply_exceeded) _ h1 in
        let same = laws.uint64_same (or_panic-ok (int_uint64 (get_supply p.denom s)) e1) in
        (ap (λ r. r.1) h2, rw (← same) (not_exceeded e2), rw (← same) (ap (λ r. r.0) h2))
      where
        not_exceeded : {m x : ℕ} → fail_if (ltb m x) max_supply_exceeded ≡ ok tt → x ≤ m
        not_exceeded e = ground arith

    authorize-ok :
        (msg : MsgMint) (p : Params) (b : Bytes)
        → string_to_bytes msg.signer ≡ some b
        → fail_if (not (is_authorized k p b)) unauthorized ≡ ok tt
        → Authorized msg p
    authorize-ok msg p b e h = (b, e, is_authorized_iff p b (ground arith))

    -- On a keeper that is lawful, a `Mint` that ends well was signed by the minting address,
    -- stayed under the maximum supply and under the limit of its date, raised the supply of the
    -- denomination by exactly the amount, and left the parameters alone.
    pub mint-Minted :
        (t : Date) (msg : MsgMint) (s s' : State)
        → mint k t msg s ≡ (ok tt, s')
        → (p : Params) × Minted t msg s s' p
    unfolding mint
    mint-Minted t msg s s' h =
        let (b, e1, h1) =
          lift-ok s (or_fail (string_to_bytes msg.signer) invalid_signer_address) _ h in
        let (p, e2, h2) =
          lift-ok s (or_fail (found_params (params_get s)) params_not_initialized) _ h1 in
        let (u, e3, h3) = lift-ok s (fail_if (not (is_authorized k p b)) unauthorized) _ h2 in
        let (v, s1, e4, h4) =
          bind-ok (check_amount k t p msg.amount) (λ _. mint_and_deposit k p msg.amount) s h3 in
        let (same, maximum, limit) = check-ok t p msg.amount s s1 e4 in
        let written = subst (λ r. mint_and_deposit k p msg.amount r ≡ (ok tt, s')) (sym same) h4 in
        let (supply, kept) = writes-ok p msg.amount s s' written in
        (
          p,
          record {
            stored = found-ok (params_get s) e2;
            authorized =
                authorize-ok msg p b
                  (or_fail-ok (string_to_bytes msg.signer) invalid_signer_address e1) e3;
            under_maximum = maximum;
            under_limit = limit;
            supply = supply;
            kept = kept ∙ found-ok (params_get s) e2;
          },
        )

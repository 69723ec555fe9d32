-- ===== src/Distro/Keeper/Refusal.antt =====
-- `Mint` writes nothing before its checks have passed, and carries out what passes them.
use gnodi.Base.{
  ap, ℕ, ◌+◌, ◌≤◌, ◌≡◌, ◌≢◌, refl, ◌∙◌, arith, Bool, true, false, not, ltb, some, ⊤, ◌⊎◌, inl, inr,
  Bool-cases,
}
use gnodi.Base.Text.{Bytes, bytes_equal_iff}
use gnodi.Calendar.{Date}
use gnodi.Distro.Params.{Params}
use gnodi.Distro.Outcome.{
  Outcome, ok, err, panic, or_fail, or_panic, fail_if, or_fail-ok, or_panic-ok,
}
use gnodi.Distro.Outcome.{
  params_not_initialized, unauthorized, max_supply_exceeded, invalid_signer_address, bank_failure,
}
use gnodi.Distro.Limits.{validate_minting_limits}
use gnodi.Distro.Keeper.Env.{Keeper, found, done}
use gnodi.Distro.Keeper.Env.{
  call, lift-ok, after, bind_done, call_done, Untouched-lift, Untouched-bind,
}
use gnodi.Distro.Keeper.{
  MsgMint, module_name, found_params, is_authorized, check_amount, deposit_coins, mint_and_deposit,
  mint,
}
use gnodi.Distro.Keeper.Mint.{Authorized, is_authorized_iff, found-ok}

is_authorized_same :
    (k : Keeper) (p : Params) (b : Bytes)
    → k.string_to_bytes p.minting_address ≡ some b
    → is_authorized k p b ≡ true
unfolding is_authorized
is_authorized_same k p b e = rw (e, is_authorized) ((bytes_equal_iff b b).1 refl)

module _ (k : Keeper) where
  open k use {
    State, Coins, string_to_bytes, params_get, get_supply, int_uint64, new_coins, mint_coins,
    send_coins, runtime,
  }

  -- All checks of a call have passed.
  pub record Passed (block_time : Date) (msg : MsgMint) (s : State) : Type 0 where
    pub params : Params
    pub supply : ℕ
    pub stored : params_get s ≡ found params
    pub authorized : Authorized k msg params
    pub counted : int_uint64 (get_supply params.denom s) ≡ some supply
    pub under_maximum : supply + msg.amount ≤ params.max_supply
    pub under_limit : validate_minting_limits runtime block_time supply msg.amount params ≡ ok tt

  reads_only : (t : Date) (p : Params) (n : ℕ) (s : State) → (check_amount k t p n s).1 ≡ s
  unfolding check_amount
  reads_only t p n s = by_count (or_panic (int_uint64 (get_supply p.denom s)))
    where
      judge : ℕ → State → Outcome ⊤ × State
      judge m s = (validate_minting_limits runtime t m n p, s)

      by_limit : (b : Outcome ⊤) (m : ℕ) → (after (b, s) (λ _. judge m)).1 ≡ s
      by_limit (ok _) m = refl
      by_limit (err e) m = refl
      by_limit panic m = refl

      by_count :
          (r : Outcome ℕ)
          → (after
              (r, s)
              (λ m s.
                after (fail_if (ltb p.max_supply (m + n)) max_supply_exceeded, s) (λ _. judge m))).1
            ≡ s
      by_count (ok m) = by_limit (fail_if (ltb p.max_supply (m + n)) max_supply_exceeded) m
      by_count (err e) = refl
      by_count panic = refl

  check_passed :
      (t : Date) (p : Params) (n : ℕ) (s : State)
      → check_amount k t p n s ≡ (ok tt, s)
      → (m : ℕ) × (int_uint64 (get_supply p.denom s) ≡ some m)
        × (m + n ≤ p.max_supply)
        × (validate_minting_limits runtime t m n p ≡ ok tt)
  unfolding check_amount
  check_passed t p n s h =
      let (m, e1, h1) = lift-ok s (or_panic (int_uint64 (get_supply p.denom s))) _ h in
      let (u, e2, h2) = lift-ok s (fail_if (ltb p.max_supply (m + n)) max_supply_exceeded) _ h1 in
      (m, or_panic-ok (int_uint64 (get_supply p.denom s)) e1, not_over e2, ap (λ r. r.0) h2)
    where
      not_over : {m x : ℕ} → fail_if (ltb m x) max_supply_exceeded ≡ ok tt → x ≤ m
      not_over e = ground arith

  -- A call of `Mint` leaves the state as it was, or the authorization, the maximum supply and the
  -- limits of the date have all passed: nothing is minted or sent before.
  pub mint_untouched :
      (t : Date) (msg : MsgMint) (s : State) → ((mint k t msg s).1 ≡ s) ⊎ Passed t msg s
  unfolding mint
  mint_untouched t msg s =
      Untouched-lift s (or_fail (string_to_bytes msg.signer) invalid_signer_address) _ (λ b e1.
        Untouched-lift s (or_fail (found_params (params_get s)) params_not_initialized) _ (λ p e2.
          Untouched-lift s (fail_if (not (is_authorized k p b)) unauthorized) _ (λ _ e3.
            Untouched-bind (check_amount k t p msg.amount) (λ _. mint_and_deposit k p msg.amount) s
              (reads_only t p msg.amount s)
              (λ _ e4.
                let (m, c1, c2, c3) = check_passed t p msg.amount s e4 in
                inr (record {
                  params = p;
                  supply = m;
                  stored = found-ok (params_get s) e2;
                  authorized = (
                    b,
                    or_fail-ok (string_to_bytes msg.signer) invalid_signer_address e1,
                    is_authorized_iff k p b (not_refused e3),
                  );
                  counted = c1;
                  under_maximum = c2;
                  under_limit = c3;
                })))))
    where
      not_refused : {c : Bool} → fail_if (not c) unauthorized ≡ ok tt → c ≡ true
      not_refused e = ground arith

  passes_check :
      (t : Date) (p : Params) (n m : ℕ) (s : State)
      → int_uint64 (get_supply p.denom s) ≡ some m
      → m + n ≤ p.max_supply
      → validate_minting_limits runtime t m n p ≡ ok tt
      → check_amount k t p n s ≡ (ok tt, s)
  unfolding check_amount
  passes_check t p n m s e1 l e2 = rw (e1, not_exceeded l, e2)
    where
      not_exceeded : {m x : ℕ} → x ≤ m → ltb m x ≡ false
      not_exceeded h = ground arith

  -- With parameters stored, a signer that decodes to bytes other than those of the minting address
  -- is refused as unauthorized, and the state stays.
  pub mint_unauthorized :
      (t : Date) (msg : MsgMint) (s : State) (p : Params) (signer : Bytes)
      → string_to_bytes msg.signer ≡ some signer
      → params_get s ≡ found p
      → string_to_bytes p.minting_address ≢ some signer
      → mint k t msg s ≡ (err unauthorized, s)
  unfolding mint
  mint_unauthorized t msg s p b e1 e2 n = rw (e1, e2, not_authorized)
    where
      not_authorized : is_authorized k p b ≡ false
      not_authorized = elim (Bool-cases (is_authorized k p b)) [
        | inl e ↦ absurd (n (is_authorized_iff k p b e))
        | inr e ↦ e
      ]

  deposit_done :
      (p : Params) (n : ℕ) (s1 s2 : State) (receiver : Bytes) (coins : Coins)
      → new_coins p.denom n ≡ some coins
      → string_to_bytes p.receiving_address ≡ some receiver
      → send_coins module_name receiver coins s1 ≡ (done, s2)
      → deposit_coins k p.receiving_address n p.denom s1 ≡ (ok tt, s2)
  unfolding deposit_coins
  deposit_done p n s1 s2 receiver coins e1 e3 e4 =
      rw (e3, e1) (call_done (send_coins module_name receiver coins) bank_failure s1 e4)

  writes_done :
      (p : Params) (n : ℕ) (s s1 s2 : State) (receiver : Bytes) (coins : Coins)
      → new_coins p.denom n ≡ some coins
      → mint_coins module_name coins s ≡ (done, s1)
      → string_to_bytes p.receiving_address ≡ some receiver
      → send_coins module_name receiver coins s1 ≡ (done, s2)
      → mint_and_deposit k p n s ≡ (ok tt, s2)
  unfolding mint_and_deposit
  writes_done p n s s1 s2 receiver coins e1 e2 e3 e4 = rw e1 (
      bind_done (call (mint_coins module_name coins) bank_failure)
        (λ _. deposit_coins k p.receiving_address n p.denom) s
        (call_done (mint_coins module_name coins) bank_failure s e2)
      ∙ deposit_done p n s1 s2 receiver coins e1 e3 e4)

  -- A `Mint` whose checks pass, whose receiving address decodes, whose coins can be formed and
  -- whose two bank calls succeed ends well, with the state that the bank calls produced.
  pub mint_succeeds :
      (t : Date) (msg : MsgMint) (s s1 s2 : State) (receiver : Bytes) (coins : Coins)
      → (c : Passed t msg s) → new_coins c.params.denom msg.amount ≡ some coins
      → mint_coins module_name coins s ≡ (done, s1)
      → string_to_bytes c.params.receiving_address ≡ some receiver
      → send_coins module_name receiver coins s1 ≡ (done, s2)
      → mint k t msg s ≡ (ok tt, s2)
  unfolding mint
  mint_succeeds t msg s s1 s2 receiver coins c e1 e2 e3 e4 =
      let (b, d1, d2) = c.authorized in
      rw (d1, c.stored, is_authorized_same k c.params b d2)
        (bind_done (check_amount k t c.params msg.amount)
            (λ _. mint_and_deposit k c.params msg.amount) s
            (passes_check t c.params msg.amount c.supply s c.counted c.under_maximum c.under_limit)
          ∙ writes_done c.params msg.amount s s1 s2 receiver coins e1 e2 e3 e4)

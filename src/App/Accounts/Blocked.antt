-- ===== src/App/Accounts/Blocked.antt =====
-- Which addresses are blocked.
use gnodi.Base.{
  subst, ◌≡◌, ◌≢◌, ◌↔◌, refl, sym, ◌∙◌, arith, Bool, true, false, Bool-cases, inl, inr, List, [],
  ◌∷◌, map,
}
use gnodi.Base.Text.{Bytes, bytes_equal, bytes_equal_iff}
use gnodi.App.Accounts.{
  Account, accounts, delete, has_key, blocked_addrs, fee_collector, distribution, mint_module,
  bonded_pool, not_bonded_pool, gov, nft, ibc_transfer, interchain_accounts, distro, evm,
  fee_market, erc20, precisebank,
}

bytes_equal_refl : (a : Bytes) → bytes_equal a a ≡ true
bytes_equal_refl a = (bytes_equal_iff a a).1 refl

deleted : (key : Bytes) (keys : List Bytes) → has_key key (delete key keys) ≡ false
unfolding has_key delete
deleted key [] = refl
deleted key (a ∷ keys) =
    ground (arith, deleted key keys, bytes_equal_iff a key, bytes_equal_iff key a)

undeleted :
    (key x : Bytes) (keys : List Bytes) → x ≢ key → has_key x (delete key keys) ≡ has_key x keys
unfolding has_key delete
undeleted key x [] d = refl
undeleted key x (a ∷ keys) d =
    ground (arith, undeleted key x keys d, bytes_equal_iff a key, bytes_equal_iff x a)

key_of :
    (address : Account → Bytes) (l : List Account) (x : Bytes)
    → has_key x (map address l) ≡ true
    → (a : Account) × (x ≡ address a)
unfolding has_key
key_of address [] x h = cc
key_of address (a ∷ l) x h = elim (Bool-cases (bytes_equal x (address a))) [
  | inl e ↦ (a, (bytes_equal_iff x (address a)).0 e)
  | inr e ↦ key_of address l x (rw e at h)
]

here : (x : Bytes) (keys : List Bytes) → has_key x (x ∷ keys) ≡ true
unfolding has_key
here x keys = rw (bytes_equal_refl x)

there : (x a : Bytes) (keys : List Bytes) → has_key x keys ≡ true → has_key x (a ∷ keys) ≡ true
unfolding has_key
there x a keys h = ground arith

listed :
    (address : Account → Bytes) (a : Account) → has_key (address a) (map address accounts) ≡ true
listed address fee_collector = here _ _
listed address distribution = there _ _ _ (here _ _)
listed address mint_module = there _ _ _ (there _ _ _ (here _ _))
listed address bonded_pool = there _ _ _ (there _ _ _ (there _ _ _ (here _ _)))
listed address not_bonded_pool = there _ _ _ (there _ _ _ (there _ _ _ (there _ _ _ (here _ _))))
listed address gov = there _ _ _ (there _ _ _ (there _ _ _ (there _ _ _ (there _ _ _ (here _ _)))))
listed address nft =
    there _ _ _ (there _ _ _ (there _ _ _ (there _ _ _ (there _ _ _ (there _ _ _ (here _ _))))))
listed address ibc_transfer =
    there _ _ _
      (there _ _ _ (there _ _ _ (there _ _ _ (there _ _ _ (there _ _ _ (there _ _ _ (here _ _)))))))
listed address interchain_accounts = there _ _ _ (
    there _ _ _ (
      there _ _ _ (there _ _ _ (there _ _ _ (there _ _ _ (there _ _ _ (there _ _ _ (here _ _))))))))
listed address distro = there _ _ _ (
    there _ _ _ (
      there _ _ _ (
        there _ _ _
          (there _ _ _ (there _ _ _ (there _ _ _ (there _ _ _ (there _ _ _ (here _ _)))))))))
listed address evm = there _ _ _ (
    there _ _ _ (
      there _ _ _ (
        there _ _ _ (
          there _ _ _
            (there _ _ _ (there _ _ _ (there _ _ _ (there _ _ _ (there _ _ _ (here _ _))))))))))
listed address fee_market = there _ _ _ (
    there _ _ _ (
      there _ _ _ (
        there _ _ _ (
          there _ _ _ (
            there _ _ _
              (there _ _ _ (there _ _ _ (there _ _ _ (there _ _ _ (there _ _ _ (here _ _)))))))))))
listed address erc20 = there _ _ _ (
    there _ _ _ (
      there _ _ _ (
        there _ _ _ (
          there _ _ _ (
            there _ _ _ (
              there _ _ _ (
                there _ _ _
                  (there _ _ _ (there _ _ _ (there _ _ _ (there _ _ _ (here _ _))))))))))))
listed address precisebank = there _ _ _ (
    there _ _ _ (
      there _ _ _ (
        there _ _ _ (
          there _ _ _ (
            there _ _ _ (
              there _ _ _ (
                there _ _ _ (
                  there _ _ _
                    (there _ _ _ (there _ _ _ (there _ _ _ (there _ _ _ (here _ _)))))))))))))

not_both : {b : Bool} → b ≡ true → b ≡ false → ⊥
not_both h e = cc

module _ (address : Account → Bytes) where
  -- An address is blocked exactly if it is the address of a module account and not that of gov.
  pub blocked_addrs_iff :
      (x : Bytes)
      → (has_key x (blocked_addrs address) ≡ true)
        ↔ ((x ≢ address gov) × ((a : Account) × (x ≡ address a)))
  unfolding blocked_addrs
  blocked_addrs_iff x = (there_from, back_from)
    where
      keys : List Bytes
      keys = map address accounts

      not_gov : has_key x (delete (address gov) keys) ≡ true → x ≢ address gov
      not_gov h e =
          not_both (subst (λ y. has_key y (delete (address gov) keys) ≡ true) e h)
            (deleted (address gov) keys)

      there_from :
          has_key x (delete (address gov) keys) ≡ true
          → (x ≢ address gov) × ((a : Account) × (x ≡ address a))
      there_from h = (
        not_gov h,
        key_of address accounts x (sym (undeleted (address gov) x keys (not_gov h)) ∙ h),
      )

      back_from :
          (x ≢ address gov) × ((a : Account) × (x ≡ address a))
          → has_key x (delete (address gov) keys) ≡ true
      back_from (n, (a, e)) =
          undeleted (address gov) x keys n
          ∙ subst (λ y. has_key y keys ≡ true) (sym e) (listed address a)

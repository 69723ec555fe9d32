-- ===== src/Gnodid/MultiNode/Genesis/Supply.antt =====
-- The supply and the balances of the genesis state of a new testnet.
use gnodi.Base.{ap, refl, sym, ◌∙◌, arith, ℕ, ◌+◌, ◌≡◌, List, [], ◌∷◌, some}
use gnodi.Base.Result.{Result, ok}
use gnodi.Base.Action.{have-then}
use gnodi.Gnodid.MultiNode.Env.{Env, Balance, BankGenesis, InitError, failed, panicked}
use gnodi.Gnodid.MultiNode.Genesis.{add_balances, fund_bank, init_genesis_state}

module _ (k : Env) where
  open k use {
    State, Coin, BankOther, GenState, Account, AuthGenesis, bank_genesis, put_bank_genesis,
    put_auth_genesis, sanitize_genesis_balances,
  }

  -- What the amounts of one denomination satisfy, and what the bank's part of a genesis state does.
  pub record IsBankGenesis (amount : List Coin → ℕ) : Type 0 where
    pub amount-add : (a b : List Coin) → amount (k.add a b) ≡ amount a + amount b
    pub bank-put :
        (b : BankGenesis Coin BankOther) (s : GenState)
        → bank_genesis (put_bank_genesis b s) ≡ some b
    pub bank-put_auth :
        (a : AuthGenesis) (s : GenState) → bank_genesis (put_auth_genesis a s) ≡ bank_genesis s

  module _ (amount : List Coin → ℕ) (law : IsBankGenesis amount) where
    abbrev pub total : List (Balance Coin) → ℕ
    total [] = 0
    total (b ∷ l) = amount b.coins + total l

    add_balances-total :
        (l : List (Balance Coin)) (supply : List Coin)
        → amount (add_balances k l supply) ≡ amount supply + total l
    unfolding add_balances
    add_balances-total [] supply = omega arith
    add_balances-total (b ∷ l) supply =
        omega (arith, add_balances-total l (k.add supply b.coins), law.amount-add supply b.coins)

    -- The bank's part of a genesis state that was made: its balances are the cleaned ones, and its supply is
    -- that of the module's default state and the balances together.
    pub record IsFunded (gen_balances : List (Balance Coin))
        (before after : BankGenesis Coin BankOther) : Type 0 where
      pub cleaned : after.balances ≡ sanitize_genesis_balances gen_balances
      pub balanced : amount after.supply ≡ amount before.supply + total after.balances

    fund_bank-IsFunded :
        (l : List (Balance Coin)) (bank : BankGenesis Coin BankOther)
        → IsFunded l bank (fund_bank k l bank)
    unfolding fund_bank
    fund_bank-IsFunded l bank = record {
      cleaned = refl;
      balanced = add_balances-total (sanitize_genesis_balances l) bank.supply;
    }

    -- With amounts that `Coins.Add` adds up, and parts of a genesis state that are apart: in a
    -- genesis state that was made, the bank's balances are the cleaned ones, and its supply is
    -- that of the default state plus the total of the balances.
    pub init_genesis_state-IsFunded :
        (accounts : List Account) (l : List (Balance Coin)) (s s' : State) (made : GenState)
        → init_genesis_state k accounts l s ≡ (ok made, s')
        → (before after : BankGenesis Coin BankOther) × (bank_genesis (k.default_genesis)
            ≡ some before)
          × (bank_genesis made ≡ some after)
          × IsFunded l before after
    unfolding init_genesis_state
    init_genesis_state-IsFunded accounts l s s' made h =
        let (auth, _, h1) = have-then s (k.auth_genesis (k.default_genesis)) panicked _ h in
        let (packed, _, h2) = have-then s (k.pack_accounts accounts auth) failed _ h1 in
        let with_accounts = put_auth_genesis packed (k.default_genesis) in
        let (bank, e, h3) = have-then s (bank_genesis with_accounts) panicked _ h2 in
        (
          bank,
          fund_bank k l bank,
          sym (law.bank-put_auth packed (k.default_genesis)) ∙ e,
          ap bank_genesis (sym (made_is h3)) ∙ law.bank-put (fund_bank k l bank) with_accounts,
          fund_bank-IsFunded l bank,
        )
      where
        made_is :
            {a : GenState}
            → ◌≡◌ {A = Result InitError GenState × State} (ok a, s) (ok made, s')
            → a ≡ made
        made_is h = cc

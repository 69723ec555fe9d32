-- ===== src/App/Tests/Blocks.antt =====
-- The block hooks on a small bank, and the orders of the modules.
use gnodi.Base.{
  ap, refl, subst, arith, ℕ, ◌+◌, ◌-◌, ◌≡◌, ◌≢◌, Bool, true, false, ◌&&◌, ⊤, Option, some, none,
  All, leb, ◌==◌, if◌then◌else◌,
}
use gnodi.Base.Text.{Bytes, bytes, bytes_equal, bytes_equal_iff}
use gnodi.Base.Result.{ok}
use gnodi.App.Blocks.{
  Keepers, begin_blocker, apply_security_burn, burn_accounts, collect, burn_or_panic, apply_hotfix,
  security_burn_accounts, security_burn_height,
}
use gnodi.App.Blocks.Burn.{IsBank, Apart, Emptied, apply_security_burn-burned}
use gnodi.App.Orders.{}

-- One denomination: the balances, and the supply.
pub record Bank : Type 0 where
  pub balance : Bytes → ℕ
  pub supply : ℕ

abbrev vault : Bytes
vault = bytes "vm"

abbrev toy_send : Bytes → ℕ → Bank → Option ⊤ × Bank
toy_send a c s =
    if leb c (s.balance a)
    then (
      some tt,
      record s {
        balance = λ b.
            if bytes_equal b vault
            then s.balance vault + c
            else if bytes_equal b a
            then s.balance a - c
            else s.balance b;
      },
    )
    else (none, s)

abbrev toy_burn : ℕ → Bank → Option ⊤ × Bank
toy_burn c s =
    if leb c (s.balance vault) && leb c s.supply
    then (
      some tt,
      record {
        balance = λ b. if bytes_equal b vault then s.balance vault - c else s.balance b;
        supply = s.supply - c;
      },
    )
    else (none, s)

abbrev pub toy : Keepers
toy = record {
  State = Bank;
  Coins = ℕ;
  FeeRest = ⊤;
  Events = ℕ;
  PreBlocked = ⊤;
  Ended = ⊤;
  acc_address_from_bech32 = λ x. some x;
  get_all_balances = λ a s. s.balance a;
  is_zero = λ c. c == 0;
  add = λ a b. a + b;
  no_coins = 0;
  send_to_vm = toy_send;
  burn_in_vm = toy_burn;
  get_fee_params = λ s. record { no_base_fee = true; base_fee = 0; min_gas_price = 1; rest = tt };
  set_fee_params = λ p s. (some tt, s);
  pre_block = λ s. (some tt, s);
  begin_block = λ s. (some 7, s);
  end_block = λ s. (some tt, s);
}

-- A call that was granted.
granted :
    (b : Bool) (t s : Bank) {s' : Bank}
    → ◌≡◌ {A = Option ⊤ × Bank} (if b then (some tt, t) else (none, s)) (some tt, s')
    → (b ≡ true) × (t ≡ s')
granted true t s h = (refl, ap (λ r. r.1) h)
granted false t s h = cc

abbrev pub sent_state : Bytes → ℕ → Bank → Bank
sent_state a c s = record s {
  balance = λ b.
      if bytes_equal b vault
      then s.balance vault + c
      else if bytes_equal b a
      then s.balance a - c
      else s.balance b;
}

abbrev pub burned_state : ℕ → Bank → Bank
burned_state c s = record {
  balance = λ b. if bytes_equal b vault then s.balance vault - c else s.balance b;
  supply = s.supply - c;
}

send_granted :
    (a : Bytes) (c : ℕ) (s : Bank) {s' : Bank}
    → toy_send a c s ≡ (some tt, s')
    → (leb c (s.balance a) ≡ true) × (sent_state a c s ≡ s')
send_granted a c s h = granted (leb c (s.balance a)) (sent_state a c s) s h

burn_granted :
    (c : ℕ) (s : Bank) {s' : Bank}
    → toy_burn c s ≡ (some tt, s')
    → (leb c (s.balance vault) && leb c s.supply ≡ true) × (burned_state c s ≡ s')
burn_granted c s h = granted (leb c (s.balance vault) && leb c s.supply) (burned_state c s) s h

toy_sent :
    (a : Bytes) (c : ℕ) (s : Bank)
    → a ≢ vault
    → leb c (s.balance a) ≡ true
    → ((sent_state a c s).balance a + c ≡ s.balance a)
      × ((sent_state a c s).balance vault ≡ s.balance vault + c)
      × ((sent_state a c s).supply ≡ s.supply)
toy_sent a c s n e = (
  ground (arith, n, bytes_equal_iff a vault, bytes_equal_iff a a),
  ground (arith, bytes_equal_iff vault vault),
  refl,
)

toy_sent_other :
    (a b : Bytes) (c : ℕ) (s : Bank)
    → b ≢ a
    → b ≢ vault
    → (sent_state a c s).balance b ≡ s.balance b
toy_sent_other a b c s n m = ground (arith, n, m, bytes_equal_iff b vault, bytes_equal_iff b a)

toy_burned :
    (c : ℕ) (s : Bank)
    → leb c (s.balance vault) && leb c s.supply ≡ true
    → ((burned_state c s).balance vault + c ≡ s.balance vault)
      × ((burned_state c s).supply + c ≡ s.supply)
toy_burned c s e = ground (arith, bytes_equal_iff vault vault)

toy_burned_other :
    (b : Bytes) (c : ℕ) (s : Bank) → b ≢ vault → (burned_state c s).balance b ≡ s.balance b
toy_burned_other b c s m = ground (arith, m, bytes_equal_iff b vault)

toy-IsBank : IsBank toy vault (λ d c. c) (λ d s. s.supply)
toy-IsBank = record {
  zero_amount = λ d c h. ground arith;
  add_amount = λ d a b. refl;
  no_amount = λ d. refl;
  sent = λ d a c s s' n h.
      let (e, f) = send_granted a c s h in
      subst
        (λ t.
          (t.balance a + c ≡ s.balance a)
          × (t.balance vault ≡ s.balance vault + c)
          × (t.supply ≡ s.supply))
        f (toy_sent a c s n e);
  sent_other = λ d a b c s s' n m h.
      let (e, f) = send_granted a c s h in
      subst (λ t. t.balance b ≡ s.balance b) f (toy_sent_other a b c s n m);
  burned = λ d c s s' h.
      let (e, f) = burn_granted c s h in
      subst (λ t. (t.balance vault + c ≡ s.balance vault) × (t.supply + c ≡ s.supply)) f
        (toy_burned c s e);
  burned_other = λ d b c s s' n h.
      let (e, f) = burn_granted c s h in
      subst (λ t. t.balance b ≡ s.balance b) f (toy_burned_other b c s n);
}

-- The exploiter's account and one other have coins.
abbrev pub start : Bank
start = record {
  balance = λ b.
      if bytes_equal b (bytes "gnodi18kmwswajr0khc2xuxy7s7mnljnsscd6x25s98x")
      then 50
      else if bytes_equal b (bytes "gnodi1other")
      then 9
      else 0;
  supply = 59;
}

abbrev burned_bank : Bank
burned_bank = (apply_security_burn toy start).1

accounts-Apart :
    Apart toy vault (λ d c. c) (λ d s. s.supply) toy-IsBank (bytes "uGNOD") security_burn_accounts
accounts-Apart = ((λ a h e. cc), ((λ a h e. cc), ((λ a h e. cc), tt)))

burns : apply_security_burn toy start ≡ (ok 50, burned_bank)
unfolding apply_security_burn burn_accounts collect bytes_equal
burns = refl

apply_security_burn-burned_example :
    Emptied toy vault
      (λ d c. c)
      (λ d s. s.supply)
      toy-IsBank
      (bytes "uGNOD")
      security_burn_accounts
      burned_bank
    × (burned_bank.supply + 50 ≡ 59)
    × ((b : Bytes)
        → All (λ x. ◌≢◌ {A = Option Bytes} (some x) (some b)) security_burn_accounts
        → burned_bank.balance b ≡ start.balance b)
apply_security_burn-burned_example =
    apply_security_burn-burned toy vault (λ d c. c) (λ d s. s.supply) toy-IsBank (bytes "uGNOD")
      start burned_bank 50 accounts-Apart burns

-- The block of the burn.
runs : begin_blocker toy security_burn_height start ≡ (ok 7, burned_bank)
unfolding begin_blocker burn_or_panic apply_hotfix apply_security_burn burn_accounts collect
    bytes_equal
runs = refl

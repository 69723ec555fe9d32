-- ===== src/Distro/Keeper/Due.antt =====
-- Which mints the schedule lets through.
use gnodi.Base.{sym, subst, ◌∙◌, arith, ℕ, ◌+◌, ◌≤◌, ◌≡◌, ◌↔◌, some}
use gnodi.Base.Int.{pos}
use gnodi.Base.Text.{Bytes}
use gnodi.Calendar.{Date}
use gnodi.Calendar.Text.{parse_date}
use gnodi.Calendar.Text.RoundTrip.{parse_date-format_date}
use gnodi.Distro.Params.{Params}
use gnodi.Distro.Months.{months_between}
use gnodi.Distro.Outcome.{ok, ok_inj}
use gnodi.Distro.Limits.Plan.{scheduled}
use gnodi.Distro.Limits.Schedule.{IsRun, Fits, limit_at-le, limit_at-scheduled}
use gnodi.Distro.Limits.Verdict.{validate_minting_limits_iff}
use gnodi.Distro.Keeper.Env.{Keeper, IsLawful, found, done}
use gnodi.Distro.Keeper.{MsgMint, mint, module_name}
use gnodi.Distro.Keeper.Mint.{Authorized, mint-Minted}
use gnodi.Distro.Keeper.Refusal.{Passed, mint_succeeds}
use gnodi.Distro.Keeper.OnSchedule.{mint_on_schedule}
use gnodi.Distro.Keeper.Trace.{found_inj}

module _ (k : Keeper) (laws : IsLawful k) where
  open k use {State, Coins, params_get, get_supply, int_uint64, new_coins, mint_coins, send_coins}
  open k use {string_to_bytes, runtime}

  -- The outside of a mint is ready: the signer is the minting address, the supply is a uint64, the
  -- coins can be formed, and the bank mints them and sends them to the receiving address.
  pub record IsReady (msg : MsgMint) (p : Params) (s s2 : State) : Type 0 where
    pub authorized : Authorized k msg p
    pub counted : int_uint64 (get_supply p.denom s) ≡ some (get_supply p.denom s)
    pub coins : Coins
    pub formed : new_coins p.denom msg.amount ≡ some coins
    pub minted_state : State
    pub mints : mint_coins module_name coins s ≡ (done, minted_state)
    pub receiver : Bytes
    pub receives : string_to_bytes p.receiving_address ≡ some receiver
    pub sends : send_coins module_name receiver coins minted_state ≡ (done, s2)

  module _ (t start : Date) (p : Params) (n : ℕ) (run : IsRun p start t) (fits : Fits p)
      (months : months_between start t ≡ pos n)
      (parsed : parse_date p.distribution_start_date ≡ some start) where
    -- The schedule of the day.
    abbrev pub due : ℕ
    due = scheduled p.max_supply p.months_in_halving_period start t n

    due-le : due ≤ p.max_supply
    due-le =
        let (total, e, le) = limit_at-le runtime p start t run in
        let same = ok_inj (sym e ∙ limit_at-scheduled runtime p start t n run fits months) in
        subst (λ x. x ≤ p.max_supply) same le

    passes :
        (msg : MsgMint) (s s2 : State)
        → params_get s ≡ found p
        → IsReady msg p s s2
        → get_supply p.denom s + msg.amount ≤ due
        → Passed k t msg s
    passes msg s s2 stored r h = record {
      params = p;
      supply = get_supply p.denom s;
      stored = stored;
      authorized = r.authorized;
      counted = r.counted;
      under_maximum = omega (arith, h, due-le);
      under_limit = (validate_minting_limits_iff runtime t (get_supply p.denom s) msg.amount p).1 (
        start,
        t,
        due,
        parsed,
        parse_date-format_date t run.target_date,
        limit_at-scheduled runtime p start t n run fits months,
        h,
      );
    }

    -- On a keeper that is lawful, a `Mint` of the minting address, with a supply that is a uint64,
    -- coins that can be formed, a receiving address that decodes and a bank that mints and sends
    -- them, ends well exactly if the supply with its amount is at most what the halving schedule,
    -- in whole numbers, has released by the day of the block. The stored start date parses and is
    -- not after that day, both have years 0 to 9999, a halving period has 1 to 3443 months, the
    -- maximum supply is a uint64, and half of it times the 31 days of each month of a period is
    -- below 2 ^ 64.
    pub mint_iff_due :
        (msg : MsgMint) (s s2 : State)
        → params_get s ≡ found p
        → IsReady msg p s s2
        → (mint k t msg s ≡ (ok tt, s2)) ↔ (get_supply p.denom s + msg.amount ≤ due)
    unfolding passes
    mint_iff_due msg s s2 stored r = (
      λ h.
          let (q, m) = mint-Minted k laws t msg s s2 h in
          let same = found_inj (sym m.stored ∙ stored) in
          let grown =
            subst (λ q. get_supply q.denom s2 ≡ get_supply q.denom s + msg.amount) same m.supply in
          omega (
            arith,
            grown,
            mint_on_schedule k laws t start msg p n s s2 stored parsed run fits months h,
          ),
      λ h.
          mint_succeeds k t msg s r.minted_state s2 r.receiver r.coins (passes msg s s2 stored r h)
            r.formed r.mints r.receives r.sends,
    )

-- ===== src/Distro/Keeper/OnSchedule.antt =====
-- What the limits of `validateMintingLimits` mean for the supply after a mint.
use gnodi.Base.{◌≡◌, ◌≤◌, ℕ, sym, ◌∙◌, subst, subst₂, ◌+◌, some}
use gnodi.Base.Int.{pos}
use gnodi.Calendar.{Date}
use gnodi.Calendar.Text.{parse_date}
use gnodi.Calendar.Text.RoundTrip.{parse_date-format_date}
use gnodi.Distro.Params.{Params}
use gnodi.Distro.Months.{months_between}
use gnodi.Distro.Outcome.{ok, ok_inj}
use gnodi.Distro.Limits.{limit_at, validate_minting_limits}
use gnodi.Distro.Limits.Plan.{scheduled}
use gnodi.Distro.Limits.Schedule.{IsRun, Fits, limit_at-scheduled}
use gnodi.Distro.Limits.Verdict.{validate_minting_limits_iff}
use gnodi.Distro.Keeper.Env.{Keeper, IsLawful, found}
use gnodi.Distro.Keeper.{MsgMint, mint}
use gnodi.Distro.Keeper.Mint.{mint-Minted}
use gnodi.Distro.Keeper.Trace.{found_inj}

some_same : {A : Type 0} {a b : A} → some a ≡ some b → a ≡ b
some_same h = cc

module _ (k : Keeper) (laws : IsLawful k) where
  open k use {State, params_get, get_supply, runtime}

  -- On a keeper that is lawful, after a `Mint` that ended well the supply of the denomination is
  -- at most what the halving schedule, in whole numbers, has released by the day of the block. The
  -- stored start date parses and is not after that day, both have years 0 to 9999, a halving
  -- period has 1 to 3443 months, the maximum supply is a uint64, and half of it times the 31 days
  -- of each month of a period is below 2 ^ 64.
  pub mint_on_schedule :
      (t start : Date) (msg : MsgMint) (p : Params) (n : ℕ) (s s' : State)
      → params_get s ≡ found p
      → parse_date p.distribution_start_date ≡ some start
      → IsRun p start t
      → Fits p
      → months_between start t ≡ pos n
      → mint k t msg s ≡ (ok tt, s')
      → get_supply p.denom s' ≤ scheduled p.max_supply p.months_in_halving_period start t n
  mint_on_schedule t start msg p n s s' e1 e2 run fits e3 h =
      let (q, m) = mint-Minted k laws t msg s s' h in
      let same = found_inj (sym m.stored ∙ e1) in
      let supply =
        subst (λ q. get_supply q.denom s' ≡ get_supply q.denom s + msg.amount) same m.supply in
      let limit = (validate_minting_limits_iff runtime t (get_supply p.denom s) msg.amount p).0 (
        subst (λ q. validate_minting_limits runtime t (get_supply q.denom s) msg.amount q ≡ ok tt)
          same m.under_limit) in
      let (start', target, total, d1, d2, d3, le) = limit in
      let s1 = some_same (sym d1 ∙ e2) in
      let s2 = some_same (sym d2 ∙ parse_date-format_date t run.target_date) in
      let d4 =
        subst (λ a. limit_at runtime p a target (months_between a target) ≡ ok total) s1 d3 in
      let d5 = subst (λ b. limit_at runtime p start b (months_between start b) ≡ ok total) s2 d4 in
      let sum = ok_inj (sym d5 ∙ limit_at-scheduled runtime p start t n run fits e3) in
      subst₂ (λ x y. x ≤ y) (sym supply) sum le

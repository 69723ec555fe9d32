-- ===== src/Distro/Keeper/History.antt =====
-- The supply over a whole history of mints, against the schedule.
use gnodi.Base.{
  sym, subst, ◌∙◌, arith, ℕ, ◌≤◌, ◌≡◌, false, Bool-cases, inl, inr, List, [], ◌∷◌, All, ⊤, some,
}
use gnodi.Base.Int.{pos}
use gnodi.Calendar.{Date, exact, before}
use gnodi.Calendar.Text.{parse_date}
use gnodi.Calendar.Text.RoundTrip.{IsCommon}
use gnodi.Distro.Params.{Params}
use gnodi.Distro.Months.{months_between}
use gnodi.Distro.Months.Between.{months_between-Counts}
use gnodi.Distro.Outcome.{Outcome, ok, err, target_before_start}
use gnodi.Distro.Limits.{validate_minting_limits}
use gnodi.Distro.Limits.Plan.{scheduled}
use gnodi.Distro.Limits.Schedule.{IsRun, Fits, limit_at-scheduled, limit_at_mono, IsCommon-IsModern}
use gnodi.Distro.Limits.Verdict.{validate_minting_limits_early}
use gnodi.Distro.Keeper.Env.{Keeper, IsLawful, found}
use gnodi.Distro.Keeper.{MsgMint, mint}
use gnodi.Distro.Keeper.Mint.{mint-Minted}
use gnodi.Distro.Keeper.OnSchedule.{mint_on_schedule}
use gnodi.Distro.Keeper.Trace.{committed, committed_cases, found_inj, mint_all}

module _ (k : Keeper) (laws : IsLawful k) (p : Params) (start last : Date) (n : ℕ)
    (run : IsRun p start last) (fits : Fits p) (months : months_between start last ≡ pos n)
    (parsed : parse_date p.distribution_start_date ≡ some start) where
  open k use {State, params_get, get_supply, runtime}

  -- The parameters are stored, and the supply is no more than the schedule has released by `last`.
  pub record IsOnSchedule (s : State) : Type 0 where
    pub stored : params_get s ≡ found p
    pub within :
        get_supply p.denom s ≤ scheduled p.max_supply p.months_in_halving_period start last n

  -- A block of a year 0 to 9999, not after the last one.
  abbrev pub NotAfter : Date → Type 0
  NotAfter t = IsCommon t × (before last t ≡ false)

  run_at : (t : Date) → NotAfter t → before t start ≡ false → IsRun p start t
  run_at t (c, o) e = record {
    start_date = run.start_date;
    target_date = c;
    in_order = e;
    some_months = run.some_months;
    few_months = run.few_months;
    supply = run.supply;
  }

  scheduled-before :
      (t : Date) (m : ℕ)
      → NotAfter t
      → before t start ≡ false
      → months_between start t ≡ pos m
      → scheduled p.max_supply p.months_in_halving_period start t m
        ≤ scheduled p.max_supply p.months_in_halving_period start last n
  scheduled-before t m h e c =
      limit_at_mono runtime p start t last _ _ (run_at t h e) run fits h.1
        (limit_at-scheduled runtime p start t m (run_at t h e) fits c)
        (limit_at-scheduled runtime p start last n run fits months)

  mint-IsOnSchedule :
      (t : Date) (msg : MsgMint) (s s' : State)
      → NotAfter t
      → IsOnSchedule s
      → mint k t msg s ≡ (ok tt, s')
      → IsOnSchedule s'
  mint-IsOnSchedule t msg s s' h i e = elim (Bool-cases (before t start)) [
    | inl early ↦
        let (q, made) = mint-Minted k laws t msg s s' e in
        let same = found_inj (sym made.stored ∙ i.stored) in
        absurd (
          refused
            (subst
              (λ q. validate_minting_limits runtime t (get_supply q.denom s) msg.amount q ≡ ok tt)
              same made.under_limit)
            (validate_minting_limits_early runtime t start (get_supply p.denom s) msg.amount p h.0
              parsed early))
    | inr later ↦
        let (m, c) =
          months_between-Counts exact start t (IsCommon-IsModern run.start_date)
            (IsCommon-IsModern h.0) later in
        let (q, made) = mint-Minted k laws t msg s s' e in
        record {
          stored = made.kept ∙ sym made.stored ∙ i.stored;
          within = omega (
            arith,
            scheduled-before t m h later c.0,
            mint_on_schedule k laws t start msg p m s s' i.stored parsed (run_at t h later) fits c.0
                e,
          );
        }
  ]
    where
      refused : {r : Outcome ⊤} → r ≡ ok tt → r ≡ err target_before_start → ⊥
      refused e f = unlike (sym e ∙ f)
        where
          unlike : ◌≡◌ {A = Outcome ⊤} (ok tt) (err target_before_start) → ⊥
          unlike e = cc

  -- On a keeper that is lawful, from a state that holds the parameters and a supply within the
  -- schedule of a day: whatever mints arrive in blocks up to that day, in any order of their
  -- dates, the parameters stay and the supply stays within the schedule of that day. The stored
  -- start date parses and is not after that day, that day and the dates of the blocks have years 0
  -- to 9999, a halving period has 1 to 3443 months, the maximum supply is a uint64, and half of it
  -- times the 31 days of each month of a period is below 2 ^ 64.
  pub mint_all-IsOnSchedule :
      (ms : List (Date × MsgMint)) (s : State)
      → All (λ m. NotAfter m.0) ms
      → IsOnSchedule s
      → IsOnSchedule (mint_all k ms s)
  unfolding mint_all
  mint_all-IsOnSchedule [] s h i = i
  mint_all-IsOnSchedule ((t, msg) ∷ ms) s (h, hs) i =
      mint_all-IsOnSchedule ms (committed (mint k t msg s) s) hs
        (elim (committed_cases (mint k t msg s) s) [
          | inl same ↦ subst IsOnSchedule (sym same) i
          | inr e ↦ mint-IsOnSchedule t msg s (committed (mint k t msg s) s) h i e
        ])

-- ===== src/Distro/Tests/Messages.antt =====
-- The theorems about the handlers, on the small chain.
use gnodi.Base.{◌↔◌, ℕ, ◌+◌, ◌<◌, ◌≡◌, ◌≢◌, refl, arith, Option, some, List, [], ◌∷◌, ◌⊎◌}
use gnodi.Base.Text.{Bytes, bytes}
use gnodi.Calendar.{Date, days_in, is_leap, days_in_month}
use gnodi.Calendar.Text.{parse_date, four_digits, two_digits, skip_dash, at_end}
use gnodi.Distro.Params.{Params}
use gnodi.Distro.Params.Validity.{IsValid}
use gnodi.Distro.Outcome.{ok}
use gnodi.Distro.Keeper.{MsgMint, MsgUpdateParams, mint, update_params}
use gnodi.Distro.Keeper.Env.{found, done}
use gnodi.Distro.Keeper.Mint.{Minted, mint-Minted}
use gnodi.Distro.Keeper.Refusal.{Passed, mint_untouched, mint_succeeds}
use gnodi.Distro.Keeper.Update.{MayUpdate, update_params_iff}
use gnodi.Distro.Keeper.Ledger.{Book, IsView, Reach, book, deliver_all-Reach}
use gnodi.Distro.Keeper.Trace.{
  IsCapped, mint_all, minted_sum, mint_all-IsCapped, HoldsValid, Call, minting, updating,
  deliver_all, deliver_all-HoldsValid,
}
use gnodi.Distro.Tests.Chain.{
  toy, toy_laws, active, fresh, new_year, request, issued_once, request_allowed, Ledger,
}

abbrev passed : Passed toy new_year request fresh
passed = record {
  params = active;
  supply = 0;
  stored = refl;
  authorized = (bytes "minter", refl, refl);
  counted = refl;
  under_maximum = omega arith;
  under_limit = request_allowed;
}

pub minted : mint toy new_year request fresh ≡ (ok tt, issued_once)
minted =
    mint_succeeds toy new_year request fresh issued_once issued_once (bytes "treasury")
      (bytes "uGNOD", 1000) passed refl refl refl refl

mint-Minted_example : (p : Params) × Minted toy new_year request fresh issued_once p
mint-Minted_example = mint-Minted toy toy_laws new_year request fresh issued_once minted

mint_untouched_example :
    ((mint toy new_year request fresh).1 ≡ fresh) ⊎ Passed toy new_year request fresh
mint_untouched_example = mint_untouched toy new_year request fresh

abbrev stranger : MsgMint
stranger = record { amount = 1000; signer = bytes "stranger" }

not_the_minter : ◌≢◌ {A = Option Bytes} (some (bytes "minter")) (some (bytes "stranger"))
not_the_minter h = cc

abbrev capped : IsCapped toy active fresh
capped = record { stored = refl; below = omega arith }

abbrev two_requests : List (Date × MsgMint)
two_requests = (new_year, stranger) ∷ (new_year, request) ∷ []

mint_all-IsCapped_example :
    IsCapped toy active (mint_all toy two_requests fresh)
    × (toy.get_supply active.denom (mint_all toy two_requests fresh)
        ≡ toy.get_supply active.denom fresh + minted_sum toy two_requests fresh)
mint_all-IsCapped_example = mint_all-IsCapped toy toy_laws two_requests active fresh capped

with_supply-IsValid : (n : ℕ) → 0 < n → IsValid toy.sdk (record active { max_supply = n })
unfolding parse_date four_digits two_digits skip_dash at_end days_in is_leap days_in_month
with_supply-IsValid n h = record {
  minter = refl;
  minter_set = refl;
  receiver = refl;
  receiver_set = refl;
  denom_fits = refl;
  has_supply = h;
  starts = refl;
  has_months = omega arith;
}

abbrev doubled : Params
doubled = record active { max_supply = 70_000_000_000_000_000 }

doubled-IsValid : IsValid toy.sdk doubled
doubled-IsValid = with_supply-IsValid 70_000_000_000_000_000 (omega arith)

abbrev proposal : MsgUpdateParams
proposal = record { authority = bytes "gov"; params = doubled }

abbrev updated : Ledger
updated = record { params = found doubled; supplies = λ d. 0 }

update_params_iff_example :
    (update_params toy proposal fresh ≡ (ok tt, updated))
    ↔ (MayUpdate toy proposal × (toy.params_set doubled fresh ≡ (done, updated)))
update_params_iff_example = update_params_iff toy proposal fresh updated

update_done : update_params toy proposal fresh ≡ (ok tt, updated)
update_done = (update_params_iff toy proposal fresh updated).1 ((refl, doubled-IsValid), refl)

abbrev calls : List Call
calls = minting new_year request ∷ updating proposal ∷ minting new_year stranger ∷ []

deliver_all-HoldsValid_example : HoldsValid toy (deliver_all toy calls fresh)
deliver_all-HoldsValid_example =
    deliver_all-HoldsValid toy toy_laws calls fresh
      (active, refl, with_supply-IsValid 35_000_000_000_000_000 (omega arith))

deliver_all-Reach_example :
    (last : Book) × IsView toy (deliver_all toy calls fresh) last
    × Reach toy.sdk (book toy active fresh) last
deliver_all-Reach_example = deliver_all-Reach toy toy_laws calls active fresh refl

-- ===== src/App/Tests/Accounts.antt =====
-- The blocked addresses, for accounts with one-byte addresses.
use gnodi.Base.{◌≡◌, ◌≢◌, ◌↔◌, true, [], ◌∷◌}
use gnodi.Base.Text.{Bytes}
use gnodi.App.Accounts.{Account, gov, distro, has_key, blocked_addrs}
use gnodi.App.Accounts.Blocked.{blocked_addrs_iff}

abbrev address : Account → Bytes
address gov = 1 ∷ []
address distro = 2 ∷ []
address _ = 3 ∷ []

blocked_addrs_iff_example :
    (has_key (2 ∷ []) (blocked_addrs address) ≡ true)
    ↔ (◌≢◌ {A = Bytes} (2 ∷ []) (1 ∷ []) × ((a : Account) × (2 ∷ [] ≡ address a)))
blocked_addrs_iff_example = blocked_addrs_iff address (2 ∷ [])

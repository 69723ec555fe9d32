-- ===== src/App/Tests/Hooks.antt =====
-- The hooks of many blocks, and of the block of the burn, on the small bank.
use gnodi.Base.{refl, ◌+◌, ◌≡◌, ℕ, suc, ⊤, Option, some}
use gnodi.Base.Action.{◌>>◌, pure}
use gnodi.App.Blocks.{apply_hotfix, burn_or_panic}
use gnodi.App.Blocks.Chain.{block, blocks, block_with, hooks_act_once}
use gnodi.App.Tests.Blocks.{Bank, toy, start}

abbrev no_txs : ℕ → Bank → Option ⊤ × Bank
no_txs height s = (some tt, s)

hooks_act_once_example :
    blocks (block toy no_txs) 340_099 (1 + suc (330_452 + suc 6)) start
    ≡ (blocks (block_with toy no_txs (pure tt)) 340_099 1
          >> (block_with toy no_txs (apply_hotfix toy) 340_100
              >> (blocks (block_with toy no_txs (pure tt)) 340_101 330_452
                  >> (block_with toy no_txs (burn_or_panic toy) 670_553
                      >> blocks (block_with toy no_txs (pure tt)) 670_554 6))))
        start
hooks_act_once_example = hooks_act_once toy no_txs 340_099 1 330_452 6 start refl refl

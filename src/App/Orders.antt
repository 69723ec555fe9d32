-- ===== src/App/Orders.antt =====
-- The modules of app/app.go and the orders in which the manager runs them.
pub mod Complete
use gnodi.Base.{ℕ, ◌+◌, Bool, true, false, not, ◌&&◌, List, [], ◌∷◌, ◌==◌, if◌then◌else◌}

pub data Module : Type 0 where
  genutil auth vesting bank feegrant gov mint_module slashing distribution staking : Module
  upgrade evidence authz consensus circuit nft group params epochs ibc : Module
  light_client ibc_transfer interchain_accounts evm fee_market erc20 precisebank : Module
  distro : Module

-- A number for each module, to compare them.
abbrev pub index : Module → ℕ
index genutil = 0
index auth = 1
index vesting = 2
index bank = 3
index feegrant = 4
index gov = 5
index mint_module = 6
index slashing = 7
index distribution = 8
index staking = 9
index upgrade = 10
index evidence = 11
index authz = 12
index consensus = 13
index circuit = 14
index nft = 15
index group = 16
index params = 17
index epochs = 18
index ibc = 19
index light_client = 20
index ibc_transfer = 21
index interchain_accounts = 22
index evm = 23
index fee_market = 24
index erc20 = 25
index precisebank = 26
index distro = 27

unfoldable pub count : Module → List Module → ℕ
count m [] = 0
count m (n ∷ l) = let rest = count m l in if index m == index n then rest + 1 else rest

-- `module.NewManager`
abbrev pub managed : List Module
managed =
    genutil ∷ auth ∷ vesting ∷ bank ∷ feegrant ∷ gov ∷ mint_module ∷ slashing ∷ distribution
    ∷ staking ∷ upgrade ∷ evidence ∷ authz ∷ consensus ∷ circuit ∷ nft ∷ group ∷ params ∷ epochs
    ∷ ibc ∷ light_client ∷ ibc_transfer ∷ interchain_accounts ∷ evm ∷ fee_market ∷ erc20
    ∷ precisebank ∷ distro ∷ []

-- `SetOrderPreBlockers`
abbrev pub pre_block_order : List Module
pre_block_order = upgrade ∷ auth ∷ evm ∷ []

-- `SetOrderBeginBlockers`
abbrev pub begin_block_order : List Module
begin_block_order =
    mint_module ∷ ibc ∷ ibc_transfer ∷ erc20 ∷ fee_market ∷ evm ∷ distribution ∷ slashing ∷ evidence
    ∷ staking ∷ auth ∷ bank ∷ gov ∷ genutil ∷ authz ∷ feegrant ∷ consensus ∷ epochs ∷ precisebank
    ∷ vesting ∷ interchain_accounts ∷ nft ∷ group ∷ circuit ∷ params ∷ distro ∷ []

-- `SetOrderEndBlockers`
abbrev pub end_block_order : List Module
end_block_order =
    gov ∷ staking ∷ auth ∷ bank ∷ evm ∷ erc20 ∷ fee_market ∷ ibc ∷ ibc_transfer ∷ distribution
    ∷ slashing ∷ mint_module ∷ genutil ∷ evidence ∷ authz ∷ feegrant ∷ upgrade ∷ consensus
    ∷ precisebank ∷ vesting ∷ epochs ∷ interchain_accounts ∷ nft ∷ group ∷ circuit ∷ params ∷ distro
    ∷ []

-- `SetOrderInitGenesis` and `SetOrderExportGenesis`
abbrev pub genesis_module_order : List Module
genesis_module_order =
    consensus ∷ auth ∷ bank ∷ distribution ∷ staking ∷ slashing ∷ gov ∷ mint_module ∷ evidence
    ∷ authz ∷ feegrant ∷ vesting ∷ nft ∷ group ∷ upgrade ∷ circuit ∷ epochs ∷ params ∷ ibc ∷ evm
    ∷ fee_market ∷ erc20 ∷ precisebank ∷ ibc_transfer ∷ interchain_accounts ∷ genutil ∷ distro ∷ []

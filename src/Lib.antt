-- ===== src/Lib.antt =====
-- A verification of gnodi, a Cosmos SDK chain whose module x/distro mints its coin on a halving
-- schedule.
--
-- The program. A message `MsgMint` of the minting address asks for new coins. The handler `Mint` of
-- x/distro/keeper/msg_server_mint.go checks the signer against the parameters of the module, the supply
-- against `MaxSupply`, and the supply with the amount against what the schedule has released by the day
-- of the block; then it mints through the bank module and sends the coins to the receiving address.
-- `UpdateParams` (msg_update_params.go) lets the authority replace the parameters, after
-- `Params.Validate` (x/distro/types/params.go). Before any message runs, the ante handler of app/ante.go
-- looks into group proposals and authz executions and refuses those that carry a disabled message.
--
-- Around the module, app/ builds the application: a begin blocker that applies a hotfix and a burn at two
-- heights before that of the modules, an upgrade handler, and an export that prepares the stores for a
-- chain that starts again. The program cmd/gnodid starts it: `init` writes the genesis file of a node, and
-- two commands set up testnets, one in place of a running chain and one of several nodes.
--
-- The files.
-- - Base and its children: Boolean tests, integers, byte strings, results and options; Base/Action
--   has the actions on a state, and Base/Table loops over rows.
-- - Calendar: the part of Go's package `time` that the limits use, as civil dates; Calendar/Text reads
--   and writes the layout 2006-01-02. The record `Runtime` holds what Go computes and does not document:
--   the uint64 of a negative float64, and the date of a year that 64-bit seconds cannot hold.
-- - Distro/Params: the parameters, their defaults and both validations (x/distro/types/params.go and
--   genesis.go). The validity of an address and of a denomination are parameters (`SdkTypes`).
-- - Distro/Months: `addMonths` and `monthsBetween`. Distro/Halving: `halvingPeriodLimit` and the loop
--   over the periods that are over. Distro/Limits: the rest of `validateMintingLimits`. All of this is
--   x/distro/keeper/msg_server_mint.go. Its uint64 arithmetic is written with `% 2 ^ 64`, and Go's
--   run-time panics are an outcome of their own (Distro/Outcome).
-- - Distro/Keeper: the handlers `Mint` and `UpdateParams`, the query (query_params.go) and genesis
--   (genesis.go) of x/distro/keeper. They pass a state along; the address codec, the store item and the
--   bank are the fields of the record `Keeper` of Distro/Keeper/Env, and `IsLawful` says what those
--   parts document. Distro/Keeper/Trace runs messages one after another and drops the writes of a
--   message that failed, as the SDK does. Distro/Keeper/Ledger says what the module promises without its
--   messages: a book of parameters and supplies with a relation of steps, which the messages refine.
-- - Distro/Keeper/Provide: `NewKeeper` of x/distro/keeper/keeper.go and `ProvideModule` of
--   x/distro/module/depinject.go, which chooses the authority.
-- - Distro/Module: the genesis methods of `AppModule` in x/distro/module/module.go, on raw JSON.
-- - App/Upgrades: the handler of app/upgrades.go and the genesis states of app/genesis.go. The keepers
--   and the module manager are the fields of the record `Chain`.
-- - App/Accounts: the module accounts of app/app.go and the addresses that may not receive coins.
-- - App/Blocks: the hotfix and the burn of app/app.go, and the begin blocker that runs them at their
--   heights; App/Blocks/Chain runs blocks one after another. App/Orders: the modules of the manager and
--   the orders of the same file.
-- - App/Keepers: the construction of the keepers in app/app.go and app/ibc.go as a list of statements,
--   with the stores and the other keepers that each is given.
-- - App/Genesis: the default genesis and `InitChainer` of app/app.go. App/GenesisAccount: the check of
--   app/genesis_account.go.
-- - App/Mempool: app/mempool.go, and the end of the constructor in app/app.go, which sets the handlers
--   of transactions.
-- - App/Export: app/export.go, the export of the state and its preparation for height 0.
-- - Gnodid/Init: cmd/gnodid/cmd/init.go, the genesis file of a new node. Gnodid/Options: the chain id, the
--   export and the application of a node of cmd/gnodid/cmd/commands.go. Gnodid/Root: what
--   cmd/gnodid/cmd/root.go runs before every command, with the configurations of config.go.
-- - Gnodid/InPlace: cmd/gnodid/cmd/testnet.go, the in-place testnet, and its arguments.
-- - Gnodid/MultiNode: cmd/gnodid/cmd/testnet_multi_node.go. Args reads the flags, Ports has the ports,
--   Node is the loop over the nodes, Genesis makes and collects the genesis files, Files writes and
--   copies, and Run is `initTestnetFiles`. Keys, paths and files are the fields of the record `Env`.
-- - App/Ante: `groupLimiterDecorator` of app/ante.go. A message holds what the SDK unpacks from it.
--   App/Ante/Handler: `setAnteHandler` and the listeners of pending transactions.
--
-- Bounds. The loop over the past periods takes its number of rounds as fuel, which is the number of
-- periods that are over, so no fuel runs out. The statements on the schedule assume halving periods of
-- 1 to 3443 months (286 years): beyond that, Go's `Duration` saturates. `addMonths` takes any int64, with
-- its wrap-around; `go_date` is the calendar up to 292 billion years from the year 0. Dates have years from 0 to 9999,
-- which are those that the layout writes with four digits. The decimal text of a number `n` is written
-- with `n + 1` rounds, and it has at most as many digits.
--
-- Code that changes a state outside the repository is an `Action` (Base/Action): the calls are fields of
-- a record of the component, a call returns a value or an error and the state that it left, and what the
-- statements need of the calls stands in a record of laws beside them.
--
-- Not modelled: the generated protobuf code and gateway, what app/app.go and app/ibc.go hand to the
-- constructors of the SDK beside keepers and stores, the services and routes that are registered, the
-- commands of gnodid that are only put together, autocli and the simulation, the pool of transactions
-- itself, and the Cosmos SDK and EVM modules, which are not part of the repository. Paths, files, keys
-- and JSON texts of the commands are outside calls too. Gas, events and the text of error messages are
-- left out.
pub mod Base
pub mod Calendar
pub mod Distro
pub mod App
pub mod Gnodid

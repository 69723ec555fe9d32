-- ===== src/Distro/Module.antt =====
-- The genesis methods of `AppModule` in x/distro/module/module.go, on raw JSON. The JSON codec of the
-- application is outside the repository; where a method panics with an error, the outcome is a panic.
pub mod Genesis
use gnodi.Base.{ap, ◌≡◌, Option, none, some, ⊤}
use gnodi.Base.Text.{Bytes}
use gnodi.Base.Result
use gnodi.Distro.Params.{GenesisState, ParamsError, default_genesis, validate_genesis}
use gnodi.Distro.Outcome.{Outcome, ok, err, panic, or_panic}
use gnodi.Distro.Keeper.Env.{Keeper, Action, ◌>>=◌, lift}
use gnodi.Distro.Keeper.{init_genesis, export_genesis}

-- `codec.Codec` on the genesis state.
pub record JsonCodec : Type 0 where
  pub marshal : GenesisState → Option Bytes
  pub unmarshal : Bytes → Option GenesisState

-- What is written can be read.
abbrev pub IsFaithful : JsonCodec → Type 0
IsFaithful cdc =
    (gs : GenesisState) (bz : Bytes) → cdc.marshal gs ≡ some bz → cdc.unmarshal bz ≡ some gs

pub data GenesisError : Type 0 where
  undecodable : GenesisError
  invalid_genesis : ParamsError → GenesisError

-- `if err != nil { panic(err) }`
abbrev pub must : {S A : Type 0} → Action S A → Action S A
must m s =
    let (r, s') = m s in elim r [ ok a ↦ (ok a, s') | err e ↦ (panic, s') | panic ↦ (panic, s') ]

abbrev pub of_genesis : Result.Result ParamsError ⊤ → Result.Result GenesisError ⊤
of_genesis (Result.ok _) = Result.ok tt
of_genesis (Result.err e) = Result.err (invalid_genesis e)

module _ (k : Keeper) (cdc : JsonCodec) where
  open k use {State, sdk}
  open cdc use {marshal, unmarshal}

  unfoldable pub default_genesis_json : Outcome Bytes
  default_genesis_json = or_panic (marshal default_genesis)

  unfoldable pub validate_genesis_json : Bytes → Result.Result GenesisError ⊤
  validate_genesis_json bz = elim (unmarshal bz) [
    | none ↦ Result.err undecodable
    | some gs ↦ of_genesis (validate_genesis sdk gs)
  ]

  unfoldable pub init_genesis_json : Bytes → Action State ⊤
  init_genesis_json bz = do gs ← lift (or_panic (unmarshal bz)); must (init_genesis k gs)

  unfoldable pub export_genesis_json : Action State Bytes
  export_genesis_json = do gs ← must (export_genesis k); lift (or_panic (marshal gs))

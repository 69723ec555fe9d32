-- ===== src/App/Genesis/Start.antt =====
-- The start of the chain from a genesis: `InitChainer` of app/app.go.
use gnodi.Base.{⊤, Option}
use gnodi.Base.Text.{Bytes}
use gnodi.Base.Action.{Action, Call, ◌>>=◌, ◌>>◌, have, try}
use gnodi.App.Upgrades.{Chain, VersionMap}
use gnodi.App.Genesis.{GenesisCodec, GenesisMap}

-- Why the chain does not start; the first two are panics.
pub data InitError : Type 0 where
  unreadable_state versions_not_set genesis_error : InitError

module _ (c : Chain) (k : GenesisCodec c) (State Response : Type 0)
    (unmarshal : Bytes → Option (GenesisMap c k)) (version_map : VersionMap)
    (set_module_version_map : VersionMap → Call State ⊤)
    (init_genesis : GenesisMap c k → Call State Response) where
  unfoldable pub init_chainer : Bytes → Action InitError State Response
  init_chainer app_state_bytes = do
    genesis ← have (unmarshal app_state_bytes) unreadable_state
    try (set_module_version_map version_map) versions_not_set
    try (init_genesis genesis) genesis_error

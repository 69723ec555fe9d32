-- ===== src/App/Tests/Keepers.antt =====
-- The construction of the keepers at one of its statements, and its stores at one store.
use gnodi.Base.{◌≡◌, ◌++◌}
use gnodi.App.Keepers.{distro_store, construction, keys, tkeys}
use gnodi.App.Keepers.Wired.{stores_apart, count, store_number, stores_of}

distro_store_apart :
    (count store_number distro_store (keys ++ tkeys) ≡ 1)
    × (count store_number distro_store (stores_of construction) ≡ 1)
distro_store_apart = stores_apart distro_store

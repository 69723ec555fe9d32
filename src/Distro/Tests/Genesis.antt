-- ===== src/Distro/Tests/Genesis.antt =====
-- The theorems about the parameters and genesis, on the small chain.
use gnodi.Base.{◌≡◌, ◌↔◌, refl, some}
use gnodi.Base.Result.{ok}
use gnodi.Distro.Params.{GenesisState, default_params, validate, validate_genesis}
use gnodi.Distro.Params.Validity.{IsValid, IsAdmissible, validate_iff, validate_genesis_iff}
use gnodi.Distro.Outcome
use gnodi.Distro.Keeper.{init_genesis}
use gnodi.Distro.Keeper.Env.{missing}
use gnodi.Base.{none, [], ◌⊎◌}
use gnodi.Base.Text.{Bytes}
use gnodi.Distro.Params.{default_genesis}
use gnodi.Distro.Keeper.{mint}
use gnodi.Distro.Keeper.Env.{found}
use gnodi.Distro.Module.{default_genesis_json, init_genesis_json, export_genesis_json}
use gnodi.Distro.Module.Genesis.{export_genesis_json-init_genesis_json, mint_default}
use gnodi.Distro.Tests.Json.{json, json-IsFaithful}
use gnodi.Distro.Tests.Chain.{new_year, request}
use gnodi.Distro.Tests.Chain.{toy, toy_laws, active, fresh, Ledger}

validate_iff_example : (validate toy.sdk active ≡ ok tt) ↔ IsValid toy.sdk active
validate_iff_example = validate_iff toy.sdk active

validate_genesis_iff_example :
    (validate_genesis toy.sdk (record { params = default_params }) ≡ ok tt)
    ↔ IsAdmissible toy.sdk default_params
validate_genesis_iff_example = validate_genesis_iff toy.sdk default_params

abbrev empty : Ledger
empty = record { params = missing; supplies = λ d. 0 }

abbrev saved : GenesisState
saved = record { params = active }

stored : init_genesis toy saved empty ≡ (Outcome.ok tt, fresh)
unfolding init_genesis
stored = refl

abbrev text : Bytes
text = elim (json.marshal saved) [ none ↦ [] | some bz ↦ bz ]

read_in : init_genesis_json toy json text empty ≡ (Outcome.ok tt, fresh)
unfolding init_genesis_json init_genesis
read_in = rw (json-IsFaithful saved text refl)

export_genesis_json-init_genesis_json_example :
    (export_genesis_json toy json fresh ≡ (Outcome.ok text, fresh))
    × (json.unmarshal text ≡ some saved)
export_genesis_json-init_genesis_json_example =
    export_genesis_json-init_genesis_json toy json toy_laws json-IsFaithful saved text text empty
      fresh (json-IsFaithful saved text refl) refl read_in

abbrev default_text : Bytes
default_text = elim (json.marshal default_genesis) [ none ↦ [] | some bz ↦ bz ]

default_written : default_genesis_json toy json ≡ Outcome.ok default_text
unfolding default_genesis_json
default_written = refl

abbrev inert : Ledger
inert = record { params = found default_params; supplies = λ d. 0 }

mint_default_example :
    (mint toy new_year request inert ≡ (Outcome.err Outcome.invalid_signer_address, inert))
    ⊎ (mint toy new_year request inert ≡ (Outcome.err Outcome.unauthorized, inert))
mint_default_example = mint_default toy refl new_year request inert refl

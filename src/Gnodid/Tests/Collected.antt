-- ===== src/Gnodid/Tests/Collected.antt =====
-- The genesis files of two nodes that start from different texts.
use gnodi.Base.{ap, refl, sym, ◌∙◌, ℕ, ◌≢◌, List, [], ◌∷◌, ◌++◌, ⊤, none}
use gnodi.Base.Text.{Bytes, bytes}
use gnodi.Base.Result.{Result}
use gnodi.Gnodid.MultiNode.Env.{InitError}
use gnodi.Gnodid.MultiNode.Genesis.{collect_gen_files}
use gnodi.Gnodid.MultiNode.Genesis.Collected.{GenesisFiles, IsGenesisDisk, file_of, config_of}
use gnodi.Gnodid.Tests.MultiNode.{Disk, put, toy, args, config}
use gnodi.Gnodid.Tests.Copies.{content, put-put, put-other}

abbrev files : GenesisFiles toy
files = record { document = λ c a t. a; name = λ o. []; rooted = λ d n. d ++ bytes "/genesis.json" }

toy-IsGenesisDisk : IsGenesisDisk toy content files
toy-IsGenesisDisk = record {
  file = λ c. refl;
  kept_name = λ d o. refl;
  read = λ f p s s' h. sym (ap (λ r. r.1 p) h);
  generated = λ c i d n key g p s s' h m. sym (ap (λ r. r.1 p) h);
  configured = λ f p c s s' h m. sym (ap (λ r. r.1 p) h);
  exported = λ f c a t s s' h. (
    sym (ap (λ r. r.1 f) h) ∙ put-put f a s,
    λ p m. sym (ap (λ r. r.1 p) h) ∙ put-other f p a s m,
  );
}

abbrev start : Disk
start =
    put (bytes "out/v0/genesis.json") (bytes "first")
      (put (bytes "out/v1/genesis.json") (bytes "second") (λ p. none))

abbrev ids : List Bytes
ids = bytes "id-0" ∷ bytes "id-1" ∷ []

abbrev keys : List Bytes
keys = bytes "key-0" ∷ bytes "key-1" ∷ []

abbrev collected : Result InitError ⊤ × Disk
collected = collect_gen_files toy args [] ids keys 2 config start

abbrev IsApart : ℕ → ℕ → Type 0
IsApart a b =
    file_of toy content files toy-IsGenesisDisk args [] ids keys config.other a
    ≢ config_of toy content files toy-IsGenesisDisk args [] ids keys b

-- ===== src/Distro/Tests/Json.antt =====
-- A small codec for the tests: each text after its length, then the two numbers.
use gnodi.Base.{subst, refl, ◌≡◌, ℕ, zero, suc, Option, none, some, [], ◌∷◌, ◌++◌, length}
use gnodi.Base.Text.{Bytes}
use gnodi.Base.Partial.{◌>>=◌, some_inj}
use gnodi.Distro.Params.{GenesisState}
use gnodi.Distro.Module.{JsonCodec, IsFaithful}

take_bytes : ℕ → Bytes → Option (Bytes × Bytes)
take_bytes zero xs = some ([], xs)
take_bytes (suc n) [] = none
take_bytes (suc n) (x ∷ xs) = take_bytes n xs >>= λ (a, b). some (x ∷ a, b)

abbrev field : Bytes → Bytes → Bytes
field a rest = length a ∷ (a ++ rest)

read_field : Bytes → Option (Bytes × Bytes)
read_field [] = none
read_field (n ∷ xs) = take_bytes n xs

read_field-field : (a rest : Bytes) → read_field (field a rest) ≡ some (a, rest)
unfolding read_field take_bytes
read_field-field [] rest = refl
read_field-field (x ∷ a) rest = rw (read_field-field a rest)

pub write : GenesisState → Bytes
write gs =
    let p = gs.params in
    field p.minting_address (
      field p.receiving_address (
        field p.denom
          (field p.distribution_start_date (p.max_supply ∷ p.months_in_halving_period ∷ []))))

read_numbers : Bytes → Option (ℕ × ℕ)
read_numbers (n ∷ m ∷ []) = some (n, m)
read_numbers _ = none

pub read : Bytes → Option GenesisState
read bz = do
  (minting_address, bz) ← read_field bz
  (receiving_address, bz) ← read_field bz
  (denom, bz) ← read_field bz
  (date, bz) ← read_field bz
  (max_supply, months) ← read_numbers bz
  some (record {
    params = record {
      minting_address = minting_address;
      receiving_address = receiving_address;
      denom = denom;
      max_supply = max_supply;
      distribution_start_date = date;
      months_in_halving_period = months;
    };
  })

read-write : (gs : GenesisState) → read (write gs) ≡ some gs
unfolding read write read_numbers
read-write gs =
    let p = gs.params in
    let numbers = p.max_supply ∷ p.months_in_halving_period ∷ [] in
    let dates = field p.distribution_start_date numbers in
    let denoms = field p.denom dates in
    rw (
      read_field-field p.minting_address (field p.receiving_address denoms),
      read_field-field p.receiving_address denoms,
      read_field-field p.denom dates,
      read_field-field p.distribution_start_date numbers,
    )

abbrev pub json : JsonCodec
json = record { marshal = λ gs. some (write gs); unmarshal = read }

pub json-IsFaithful : IsFaithful json
json-IsFaithful gs bz h = subst (λ b. read b ≡ some gs) (some_inj h) (read-write gs)

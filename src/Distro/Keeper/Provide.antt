-- ===== src/Distro/Keeper/Provide.antt =====
-- The making of the keeper: `NewKeeper` and `GetAuthority` of x/distro/keeper/keeper.go, and
-- `ProvideModule` of x/distro/module/depinject.go. The module addresses, the codecs and the builder of
-- the schema are outside the repository.
use gnodi.Base.{
  refl, sym, subst, arith, ◌≡◌, ◌≢◌, Bool, false, not, [], Option, some, if◌then◌else◌,
}
use gnodi.Base.Partial.{◌>>=◌, ◌>>◌, guard, >>=-eq-some, guard-eq-some, some_inj}
use gnodi.Base.Text.{Bytes, bytes, bytes_equal, bytes_equal_iff}
use gnodi.Distro.Outcome.{ok, err, invalid_signer}
use gnodi.Distro.Keeper.Env.{Keeper}
use gnodi.Distro.Keeper.{MsgUpdateParams, update_params}
use gnodi.Distro.Keeper.Update.{update_params_iff}

abbrev pub gov_module_name : Bytes
gov_module_name = bytes "gov"

-- `k` is the keeper with its store, codecs and other keepers; a value is missing where `NewKeeper`
-- panics, which is on an authority without a text and on a schema that cannot be built.
unfoldable pub new_keeper : Keeper → Bool → Bytes → Option Keeper
new_keeper k has_schema authority = do
  text ← k.bytes_to_string authority
  guard has_schema
  some (record k { authority = authority })

unfoldable pub get_authority : Keeper → Bytes
get_authority k = k.authority

module _ (new_module_address : Bytes → Bytes) (new_module_address_or_bech32 : Bytes → Bytes) where
  -- The authority that is configured, or that of x/gov.
  unfoldable pub authority_of : Bytes → Bytes
  authority_of configured =
      if not (bytes_equal configured [])
      then new_module_address_or_bech32 configured
      else new_module_address gov_module_name

  unfoldable pub provide_module : Keeper → Bool → Bytes → Option Keeper
  provide_module k has_schema configured = new_keeper k has_schema (authority_of configured)

-- A keeper whose parameters only one authority may change, which it can name to the others.
pub record IsGoverned (k : Keeper) (authority : Bytes) : Type 0 where
  pub its_own : get_authority k ≡ authority
  pub text : Bytes
  pub readable : k.bytes_to_string authority ≡ some text
  pub accepts :
      (req : MsgUpdateParams) (s s' : k.State)
      → update_params k req s ≡ (ok tt, s')
      → k.string_to_bytes req.authority ≡ some authority
  pub refuses :
      (req : MsgUpdateParams) (s : k.State) (other : Bytes)
      → k.string_to_bytes req.authority ≡ some other
      → other ≢ authority
      → update_params k req s ≡ (err (invalid_signer text), s)

different : (a b : Bytes) → b ≢ a → bytes_equal a b ≡ false
different a b n = ground (arith, bytes_equal_iff a b)

with_authority-IsGoverned :
    (k : Keeper) (authority text : Bytes)
    → k.bytes_to_string authority ≡ some text
    → IsGoverned (record k { authority = authority }) authority
unfolding update_params get_authority
with_authority-IsGoverned k authority text e = record {
  its_own = refl;
  text = text;
  readable = e;
  accepts =
      λ req s s' h. ((update_params_iff (record k { authority = authority }) req s s').0 h).0.0;
  refuses = λ req s other r n. rw (r, different authority other n, e);
}

new_keeper-IsGoverned :
    (k : Keeper) (has_schema : Bool) (authority : Bytes) {k' : Keeper}
    → new_keeper k has_schema authority ≡ some k'
    → IsGoverned k' authority
unfolding new_keeper
new_keeper-IsGoverned k has_schema authority h =
    let (text, e, h1) = >>=-eq-some (k.bytes_to_string authority) _ h in
    let (built, h2) = guard-eq-some has_schema (some (record k { authority = authority })) h1 in
    subst (λ x. IsGoverned x authority) (some_inj h2) (with_authority-IsGoverned k authority text e)

-- The keeper that `ProvideModule` makes accepts `UpdateParams` only from the authority that is
-- configured, or from that of x/gov when none is configured, and refuses any other address as an
-- invalid signer, with the text of its authority, which is never missing.
pub provide_module-IsGoverned :
    (new_module_address new_module_address_or_bech32 : Bytes → Bytes) (k : Keeper)
    (has_schema : Bool) (configured : Bytes) {k' : Keeper}
    → provide_module new_module_address new_module_address_or_bech32 k has_schema configured
      ≡ some k'
    → (configured ≡ [] → IsGoverned k' (new_module_address gov_module_name))
      × (configured ≢ [] → IsGoverned k' (new_module_address_or_bech32 configured))
unfolding provide_module authority_of
provide_module-IsGoverned new_module_address new_module_address_or_bech32 k has_schema configured
      {k' = k'} h =
    (
      λ e.
          new_keeper-IsGoverned k has_schema (new_module_address gov_module_name)
            (rw ((bytes_equal_iff configured []).1 e) at h),
      λ n.
          new_keeper-IsGoverned k has_schema (new_module_address_or_bech32 configured)
            (rw (different configured [] (λ e. n (sym e))) at h),
    )

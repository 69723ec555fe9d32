-- ===== src/Distro/Tests/Provide.antt =====
-- The keeper that the module is given, on the small chain.
use gnodi.Base.{refl, ◌≡◌, ◌≢◌, true, [], ◌++◌, some}
use gnodi.Base.Text.{Bytes, bytes, bytes_equal}
use gnodi.Distro.Keeper.Env.{Keeper}
use gnodi.Distro.Keeper.Provide.{
  provide_module, new_keeper, authority_of, gov_module_name, IsGoverned, provide_module-IsGoverned,
}
use gnodi.Distro.Tests.Chain.{toy}

abbrev module_address : Bytes → Bytes
module_address name = bytes "module/" ++ name

abbrev provided : Keeper
provided = record toy { authority = module_address gov_module_name }

is_provided : provide_module module_address (λ a. a) toy true [] ≡ some provided
unfolding provide_module new_keeper authority_of bytes_equal
is_provided = refl

provide_module-IsGoverned_example :
    (◌≡◌ {A = Bytes} [] [] → IsGoverned provided (module_address gov_module_name))
    × (◌≢◌ {A = Bytes} [] [] → IsGoverned provided [])
provide_module-IsGoverned_example =
    provide_module-IsGoverned module_address (λ a. a) toy true [] is_provided

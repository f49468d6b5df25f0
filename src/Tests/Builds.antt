-- ===== src/Tests/Builds.antt =====
-- Inputs of tools/build_art.py and tools/windows_aot_identity.py.
use dalvikvm_multiplatform.Common.{
  All, ◌∷◌, value_error, ◌≢◌, none, some, map, text_eq, Text, codes, Assoc, pos, identity_error,
  Ends, ◌≡◌, ◌⊎◌,
}
use dalvikvm_multiplatform.Tests.Targets.{linux}
use dalvikvm_multiplatform.AotIdentity.{
  canonical_identity, located, validate_generation_startup, Json, null, contract_record,
  identity_from_contract_record,
}
use dalvikvm_multiplatform.AotIdentity.Contract.{
  Agrees, IsMismatch, Reports, validate_generation_startup-Ends, identity_from_contract_record-Ends,
}
use dalvikvm_multiplatform.PortPolicy.{make_overlay}
use dalvikvm_multiplatform.PortPolicy.Kinds.{IsProduct, make_overlay-IsProduct}
use dalvikvm_multiplatform.BuildArt.Options.{resolve_parallelism}
use dalvikvm_multiplatform.BuildArt.Options.Bounds.{Fits, Refuses, resolve_parallelism-Fits}
use dalvikvm_multiplatform.BuildArt.Commands.{
  command_invocations, audit_command_invocations, forbidden_command_tools,
}
use dalvikvm_multiplatform.BuildArt.Commands.Audit.{
  NamesTool, Permits, audit_command_invocations-Permits,
}
use dalvikvm_multiplatform.BuildArt.Links.{parse_ninja_link_outputs, parse_ninja_product_outputs}
use dalvikvm_multiplatform.BuildArt.Links.Inventory.{
  IsUnknownLanguage, parse_ninja_link_outputs-products,
}

validate_generation_startup-Ends_example :
    Ends
      (Reports canonical_identity (located (codes "/x.jar")))
      (λ u.
        (canonical_identity ≡ canonical_identity) × (located (codes "/x.jar") ≡ canonical_identity))
      (validate_generation_startup canonical_identity (located (codes "/x.jar")))
validate_generation_startup-Ends_example =
    validate_generation_startup-Ends canonical_identity (located (codes "/x.jar"))

-- The contract, and a key more that is None.
abbrev with_null : Assoc Json
with_null = (codes "zzz", null) ∷ contract_record

identity_from_contract_record-Ends_example :
    Ends
      (λ x.
        ((some with_null ≡ none) × (x ≡ identity_error (codes "manifest-contract")))
        ⊎ ((record_ : Assoc Json) × (some with_null ≡ some record_) × IsMismatch record_ x))
      (λ id.
        (id ≡ canonical_identity)
        × ((record_ : Assoc Json) × (some with_null ≡ some record_)
            × ((key : Text) → Agrees record_ key)))
      (identity_from_contract_record (some with_null))
identity_from_contract_record-Ends_example = identity_from_contract_record-Ends (some with_null)

resolve_parallelism-Fits_example :
    Ends
      (Refuses (codes "windows") (some (pos 17)))
      (Fits (codes "windows") (some (pos 17)))
      (resolve_parallelism (codes "windows") (some (pos 17)))
resolve_parallelism-Fits_example = resolve_parallelism-Fits (codes "windows") (some (pos 17))

-- The lower case of a text that is in lower case already.
abbrev same : Text → Text
same s = s

abbrev copy_command : Text
copy_command = codes ": && /usr/bin/cmake -E env A=b copy x y && :"

audit_command_invocations-Permits_example :
    Ends
      (NamesTool same)
      (λ u. All (Permits same) (command_invocations copy_command))
      (audit_command_invocations same forbidden_command_tools copy_command)
audit_command_invocations-Permits_example = audit_command_invocations-Permits same copy_command

abbrev listing : Text
listing =
    codes
      "libart.so: CXX_SHARED_LIBRARY_LINKER__art_RelWithDebInfo\ndex2oat: C_EXECUTABLE_LINKER__dex2oat\n"

parse_ninja_link_outputs-products_example :
    Ends IsUnknownLanguage
      (λ links.
        map (λ (l : Text × Text × Text). (l.0, l.1)) links
        ≡ parse_ninja_product_outputs same linux.0 listing)
      (parse_ninja_link_outputs same linux.0 listing)
parse_ninja_link_outputs-products_example = parse_ninja_link_outputs-products same linux.0 listing

make_overlay-IsProduct_example :
    Ends
      (λ x.
        (x ≡ value_error)
        × (linux.0.target_platform ≢ codes "linux")
        × ((linux.0.target_id ≢ codes "windows-x86_64-msvc")
            ⊎ (linux.0.target_platform ≢ codes "windows")))
      (IsProduct linux.0)
      (make_overlay linux.0)
make_overlay-IsProduct_example = make_overlay-IsProduct linux.0

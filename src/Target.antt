-- ===== src/Target.antt =====
-- tools/bp2cmake/bp2cmake/target.py: the canonical target profiles, and how one is looked up.
-- `_PROFILES` is built when the module is imported: an AssertionError there ends the import.
pub mod Tables
pub mod Registry
pub mod Hints
pub mod Cmake
pub mod ReadBack
use dalvikvm_multiplatform.Common.{
  sort_texts, ℕ, not, ltb, nat_beq, nat_eq, Bool, true, false, ◌&&◌, ◌||◌, Option, none, some, List,
  [], ◌∷◌, ◌++◌, map, if◌then◌else◌, ◌==◌, text_eq, contains, Text, codes, Assoc, find, join,
  replace_char,
}
use Tables.{
  ProfileSpec, target_platforms, target_arches, target_abis, mterp_layouts, llvm_file_identities,
  profile_specs, non_canonical_hints,
}

pub record TargetProfile : Type 0 where
  pub target_id : Text
  pub target_platform : Text
  pub target_arch : Text
  pub base_isa : Text
  pub aosp_arch : Text
  pub mterp_source_dir : Text
  pub mterp_output : Text
  pub target_abi : Text
  pub object_format : Text
  pub llvm_file_format : Text
  pub llvm_arch : Text
  pub pointer_bits : ℕ
  pub endianness : Text
  pub target_triple : Text
  pub cmake_system_name : Text
  pub cmake_system_processor : Text
  pub capabilities : List Text
  pub support_status : Text
  pub unavailable_reason : Text

-- The exceptions of this file, with what their messages name.
pub data TargetFault : Type 0 where
  unregistered_platform unregistered_architecture unregistered_abi no_llvm_identity : TargetFault
  wrong_id : (expected : Text) → TargetFault
  non_canonical : (hints : List Text) → TargetFault
  unknown_target : (known : List Text) → TargetFault
  unavailable : (status detail : Text) → TargetFault

pub data Outcome (A : Type 0) : Type 0 where
  done : A → Outcome A
  raises : TargetFault → Outcome A

infixl 5 ◌>>=◌
abbrev pub ◌>>=◌ : {A : Type 0} {B : Type 0} → Outcome A → (A → Outcome B) → Outcome B
done a >>= f = f a
raises e >>= f = raises e

unfoldable pub find_identity :
    Text → Text → List ((Text × Text) × (Text × Text)) → Option (Text × Text)
find_identity platform arch [] = none
find_identity platform arch (((p, a), identity) ∷ rest) =
    if p == platform && a == arch then some identity else find_identity platform arch rest

abbrev pub dashed : Text → Text → Text → Text
dashed a b c = a ++ (b'-' ∷ (b ++ (b'-' ∷ c)))

abbrev layout_of : Text → Text × Text
layout_of aosp_arch = elim (find aosp_arch mterp_layouts) [ none ↦ ([], []) | some l ↦ l ]

-- `_profile`
unfoldable pub profile : ProfileSpec → Outcome TargetProfile
profile s =
    if not (contains s.target_platform target_platforms)
    then raises unregistered_platform
    else if not (contains s.target_arch target_arches)
    then raises unregistered_architecture
    else if not (contains s.target_abi target_abis)
    then raises unregistered_abi
    else if not (s.target_id == dashed s.target_platform s.target_arch s.target_abi)
    then raises (wrong_id (dashed s.target_platform s.target_arch s.target_abi))
    else elim (find_identity s.target_platform s.target_arch llvm_file_identities) [
      | none ↦ raises no_llvm_identity
      | some (file_format, arch) ↦ done (record {
        target_id = s.target_id;
        target_platform = s.target_platform;
        target_arch = s.target_arch;
        base_isa = s.base_isa;
        aosp_arch = s.aosp_arch;
        mterp_source_dir = (layout_of s.aosp_arch).0;
        mterp_output = (layout_of s.aosp_arch).1;
        target_abi = s.target_abi;
        object_format = s.object_format;
        llvm_file_format = file_format;
        llvm_arch = arch;
        pointer_bits = s.pointer_bits;
        endianness = codes "little";
        target_triple = s.triple;
        cmake_system_name = s.cmake_system_name;
        cmake_system_processor = s.target_arch;
        capabilities = sort_texts s.capabilities;
        support_status = s.status;
        unavailable_reason = s.reason;
      })
    ]

-- The dict display of `_PROFILES`.
unfoldable pub build_profiles : Assoc ProfileSpec → Outcome (Assoc TargetProfile)
build_profiles [] = done []
build_profiles ((key, s) ∷ specs) = do
  p ← profile s
  rest ← build_profiles specs
  done ((key, p) ∷ rest)

unfoldable pub target_profiles : Outcome (Assoc TargetProfile)
target_profiles = build_profiles profile_specs

-- `resolve_target`, over the table.
unfoldable pub resolve_in : Assoc TargetProfile → Text → Outcome TargetProfile
resolve_in table target_id = elim (find target_id table) [
  | some p ↦ done p
  | none ↦ elim (find target_id non_canonical_hints) [
    | some hints ↦ raises (non_canonical hints)
    | none ↦ raises (unknown_target (map (λ kp. kp.0) table))
  ]
]

unfoldable pub resolve_target : Text → Outcome TargetProfile
resolve_target target_id = do table ← target_profiles; resolve_in table target_id

-- The property `aosp_os`.
unfoldable pub aosp_os : TargetProfile → Text
aosp_os p =
    if p.target_platform == codes "linux"
    then codes "linux_glibc"
    else if p.target_platform == codes "windows"
    then codes "windows"
    else p.target_platform

unfoldable pub is_buildable : TargetProfile → Bool
is_buildable p = contains p.support_status (codes "supported" ∷ codes "experimental" ∷ [])

-- `self.unavailable_reason or "..."`
unfoldable pub unavailable_detail : Text → Text
unavailable_detail [] = codes "the target has not passed its capability gates"
unavailable_detail (c ∷ s) = c ∷ s

unfoldable pub require_generation : TargetProfile → Outcome (Unit {0})
require_generation p =
    if is_buildable p
    then done tt
    else raises (unavailable p.support_status (unavailable_detail p.unavailable_reason))

-- `_cmake_escape`
unfoldable pub cmake_escape : Text → Text
cmake_escape value = replace_char b'"' (codes "\\\"") (replace_char b'\\' (codes "\\\\") value)

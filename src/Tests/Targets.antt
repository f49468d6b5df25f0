-- ===== src/Tests/Targets.antt =====
-- Identifiers of tools/bp2cmake/bp2cmake/target.py.
use dalvikvm_multiplatform.Common.{
  codes, ◌∷◌, [], length, has_char, join, text_leb, insert_text, sort_texts, some, ◌≡◌, refl, true,
  false, Bool, text_eq, text_beq, contains, find, All,
}
use dalvikvm_multiplatform.Target.{
  TargetProfile, Outcome, done, raises, resolve_target, resolve_in, non_canonical, target_profiles,
  build_profiles, profile, find_identity, is_buildable,
}
use dalvikvm_multiplatform.Target.Registry.{Canonical, resolve_target-Canonical}
use dalvikvm_multiplatform.Target.Cmake.{decimal, settings, to_cmake}
use dalvikvm_multiplatform.Target.ReadBack.{read_file, no_references, read_file-to_cmake}
use dalvikvm_multiplatform.Target.Hints.{resolve_target-hints}
use dalvikvm_multiplatform.Target.Hints

evaluation : Unit {0}
unfolding resolve_target resolve_in target_profiles build_profiles profile find_identity sort_texts
    insert_text text_leb is_buildable text_beq contains find
evaluation = tt

resolved : Outcome TargetProfile → Bool
resolved (done p) = true
resolved (raises e) = false

resolved-done : (o : Outcome TargetProfile) → resolved o ≡ true → (p : TargetProfile) × (o ≡ done p)
unfolding resolved
resolved-done (done p) h = (p, refl)
resolved-done (raises e) h = cc

pub linux : (p : TargetProfile) × (resolve_target (codes "linux-x86_64-gnu") ≡ done p)
unfolding evaluation resolved
linux = resolved-done (resolve_target (codes "linux-x86_64-gnu")) refl

resolve_target-Canonical_example : Canonical (codes "linux-x86_64-gnu") linux.0
resolve_target-Canonical_example =
    resolve_target-Canonical (codes "linux-x86_64-gnu") linux.0 linux.1

resolve_target-hints_example :
    (resolve_target (codes "linux-arm") ≡ raises (non_canonical (codes "linux-armv7-gnu" ∷ [])))
    × All Hints.Resolves (codes "linux-armv7-gnu" ∷ [])
unfolding find text_beq
resolve_target-hints_example =
    resolve_target-hints (codes "linux-arm") (codes "linux-armv7-gnu" ∷ []) refl

-- A profile with a quote and a backslash in its values.
abbrev quoted : TargetProfile
quoted = record {
  target_id = codes "a\"b";
  target_platform = codes "x";
  target_arch = codes "x";
  base_isa = codes "x";
  aosp_arch = codes "x";
  mterp_source_dir = codes "x";
  mterp_output = codes "x";
  target_abi = codes "x";
  object_format = codes "x";
  llvm_file_format = codes "x";
  llvm_arch = codes "x";
  endianness = codes "x";
  target_triple = codes "c\\d";
  cmake_system_name = codes "x";
  cmake_system_processor = codes "x";
  support_status = codes "x";
  unavailable_reason = codes "x";
  pointer_bits = 64;
  capabilities = codes "build" ∷ codes "aot" ∷ [];
}

read_file-to_cmake_example :
    read_file
      (length (settings ((codes "x", quoted) ∷ []) quoted))
      (to_cmake ((codes "x", quoted) ∷ []) quoted)
    ≡ some (settings ((codes "x", quoted) ∷ []) quoted)
unfolding no_references settings has_char join decimal
read_file-to_cmake_example = read_file-to_cmake ((codes "x", quoted) ∷ []) quoted refl

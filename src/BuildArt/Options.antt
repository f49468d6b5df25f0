-- ===== src/BuildArt/Options.antt =====
-- tools/build_art.py: what the options of a command and the host decide.
pub mod Bounds
use dalvikvm_multiplatform.Common.{
  ℕ, ◌++◌, Bool, true, false, not, ◌&&◌, ◌||◌, Option, none, some, List, [], ◌∷◌, if◌then◌else◌,
  ◌==◌, text_eq, ltb, leb, contains, map, starts_with, Text, codes, Assoc, find, ℤ, pos, negsuc,
  joined, BuildFault, not_positive, too_parallel, wrong_variant, test_only_variant, bad_stage,
  build_frontend_error, Error, Result, ok, err, ◌>>=◌,
}
use dalvikvm_multiplatform.Target.{TargetProfile}
use dalvikvm_multiplatform.LocalConfig.{HostPath, child}

unfoldable pub refuse : {A : Type 0} → BuildFault → Result A
refuse fault = err (build_frontend_error fault)

-- `_boot_image_parallel_limit`, on the lower-case name of the host's system.
unfoldable pub boot_image_parallel_limit : Text → ℕ
boot_image_parallel_limit system = if system == codes "windows" then 16 else 32

-- `_resolve_parallelism`
unfoldable pub resolve_parallelism : Text → Option ℤ → Result ℕ
resolve_parallelism system none = ok (boot_image_parallel_limit system)
resolve_parallelism system (some (negsuc n)) = refuse not_positive
resolve_parallelism system (some (pos n)) =
    if ltb n 1
    then refuse not_positive
    else if system == codes "windows" && ltb (boot_image_parallel_limit system) n
    then refuse too_parallel
    else ok n

abbrev pub arch_aliases : Assoc Text
arch_aliases =
    (codes "amd64", codes "x86_64")
    ∷ (codes "x64", codes "x86_64")
    ∷ (codes "arm64", codes "aarch64")
    ∷ []

-- `aliases.get(name, name)`
unfoldable pub alias_of : Assoc Text → Text → Text
alias_of aliases name = elim (find name aliases) [ none ↦ name | some other ↦ other ]

-- `_canonical_host_arch`, on the lower-case name.
unfoldable pub canonical_host_arch : Text → Text
canonical_host_arch machine = alias_of arch_aliases machine

-- `_host_can_run_target`, on the lower-case names of the host's system and machine.
unfoldable pub host_can_run_target : Text → Text → TargetProfile → Bool
host_can_run_target host_os host_arch target =
    let normalized =
      alias_of
        ((codes "amd64", codes "x86_64")
          ∷ (codes "x64", codes "x86_64")
          ∷ (codes "arm64", codes "aarch64")
          ∷ (codes "i386", codes "x86")
          ∷ (codes "i686", codes "x86")
          ∷ [])
        host_arch in
    if not (host_os == target.target_platform)
    then false
    else if target.target_arch == codes "arm64ec"
    then target.target_platform == codes "windows" && normalized == codes "aarch64"
    else normalized == target.target_arch

-- BUILD_VARIANTS
abbrev pub build_variants : List Text
build_variants =
    codes "product" ∷ codes "win32-frame-attribution" ∷ codes "win32-stack-high-water" ∷ []

abbrev pub windows_variants : List Text
windows_variants = codes "win32-frame-attribution" ∷ codes "win32-stack-high-water" ∷ []

-- `_validate_build_variant`
unfoldable pub validate_build_variant : TargetProfile → Text → Text → Result (Unit {0})
validate_build_variant target variant command =
    if variant == codes "product"
    then ok tt
    else if contains variant windows_variants
        && not (target.target_id == codes "windows-x86_64-msvc")
    then refuse wrong_variant
    else if command == codes "stage"
    then refuse test_only_variant
    else ok tt

-- `_binary_dir`
unfoldable pub configuration_of : Text → Text → Text
configuration_of build_type variant =
    if variant == codes "product"
    then build_type
    else joined (build_type ∷ codes "-" ∷ variant ∷ [])

unfoldable pub binary_dir : HostPath → TargetProfile → Text → Text → HostPath
binary_dir output_root target build_type variant =
    child (child output_root target.target_id) (configuration_of build_type variant)

-- `_stage_label`: the pattern `w[0-9]{3}`.
unfoldable pub is_digit : ℕ → Bool
is_digit c = leb b'0' c && leb c b'9'

unfoldable pub is_stage : Text → Bool
is_stage (w ∷ a ∷ b ∷ c ∷ []) = w ∷ [] == codes "w" && (is_digit a && (is_digit b && is_digit c))
is_stage _ = false

unfoldable pub stage_label : Text → Result Text
stage_label stage = if is_stage stage then ok (codes "stage:" ++ stage) else refuse bad_stage

-- `_artifact_candidates`, as names in the build directory.
abbrev pub product_executables : List Text
product_executables = codes "dalvikvm" ∷ codes "dex2oat" ∷ codes "oatdump" ∷ []

unfoldable pub candidate_suffixes : TargetProfile → Text → List Text
candidate_suffixes target name =
    if target.target_platform == codes "windows"
    then (if contains name product_executables
        then codes ".exe" ∷ []
        else codes ".dll" ∷ codes ".lib" ∷ [])
    else (if contains name product_executables then [] ∷ [] else codes ".so" ∷ [])

unfoldable pub candidate_prefixes : TargetProfile → Text → List Text
candidate_prefixes target name =
    if target.target_platform == codes "windows" || contains name product_executables
    then [] ∷ codes "lib" ∷ []
    else codes "lib" ∷ [] ∷ []

-- The two loops, over the prefixes and for each over the suffixes.
unfoldable pub candidates : List Text → Text → List Text → List Text
candidates [] name suffixes = []
candidates (prefix ∷ prefixes) name suffixes =
    map (λ suffix. joined (prefix ∷ name ∷ suffix ∷ [])) suffixes
    ++ candidates prefixes name suffixes

unfoldable pub artifact_candidates : TargetProfile → Text → List Text
artifact_candidates target name =
    candidates (candidate_prefixes target name) name (candidate_suffixes target name)

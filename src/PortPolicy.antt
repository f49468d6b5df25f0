-- ===== src/PortPolicy.antt =====
-- overlay/art_port_policy.py: the policy of the port for a target. The tables of modules are the children
-- Shared, Linux and Windows.
pub mod Fields
pub mod Shared
pub mod Linux
pub mod Windows
pub mod Kinds
use dalvikvm_multiplatform.Common.{
  Bool, true, false, not, Option, none, some, List, [], ◌∷◌, ◌++◌, if◌then◌else◌, ◌==◌, text_eq,
  contains, map, keys, Text, codes, Assoc, find, store, value_error, Result, ok, err, ◌>>=◌,
}
use dalvikvm_multiplatform.Target.{TargetProfile}
use dalvikvm_multiplatform.Overlay.{
  ModulePolicy, default_policy, BlueprintScanPolicy, GlobalPolicy, Overlay, checked,
}
use Fields.{Field, set_field, art_gaps}
use Shared.{common_modules}
use Linux.{linux_module_delta}
use Windows.{windows_module_delta}

-- `ModulePolicy(**fields)`: no name stands twice in one dict, and a later dict wins.
unfoldable pub set_fields : List Field → ModulePolicy → ModulePolicy
set_fields [] p = p
set_fields (f ∷ fs) p = set_fields fs (set_field f p)

-- `table.get(name, {})`
unfoldable pub fields_of : Option (List Field) → List Field
fields_of none = []
fields_of (some fs) = fs

abbrev pub common_name_map : Assoc Text
common_name_map =
    (codes "libbase", codes "base")
    ∷ (codes "liblog", codes "log")
    ∷ (codes "libz", codes "z")
    ∷ (codes "liblz4", codes "lz4")
    ∷ (codes "liblzma", codes "lzma")
    ∷ (codes "libnativehelper", codes "nativehelper")
    ∷ (codes "libexpat", codes "expat")
    ∷ []

abbrev pub product_blueprint_scan : BlueprintScanPolicy
product_blueprint_scan = record {
  excluded_path_components =
      codes "test" ∷ codes "tests" ∷ codes "fuzz" ∷ codes "benchmark" ∷ codes "sample" ∷ [];
  excluded_top_levels = (codes "MDVM_NATIVE_SRC_ROOT_DIR", codes "art" ∷ []) ∷ [];
}

abbrev pub product_root_modules : List Text
product_root_modules =
    codes "dalvikvm"
    ∷ codes "dex2oat"
    ∷ codes "oatdump"
    ∷ codes "libart-compiler"
    ∷ codes "libjavacrypto"
    ∷ codes "libjavacore"
    ∷ codes "libopenjdk"
    ∷ codes "libicu_jni"
    ∷ codes "libopenjdkjvmti"
    ∷ []

-- The architectures for which `_global_policy` has its 64-bit additions.
abbrev pub wide_arches : List Text
wide_arches = codes "x86_64" ∷ codes "aarch64" ∷ codes "arm64ec" ∷ []

-- The dict `common`, for a Linux target.
unfoldable pub linux_global_policy : GlobalPolicy
linux_global_policy = record {
  name_map = common_name_map;
  host_libs = codes "libz" ∷ codes "liblz4" ∷ codes "libcap" ∷ codes "libexpat" ∷ [];
  drop_cflags =
      codes "-Werror"
      ∷ codes "-Wthread-safety"
      ∷ codes "-Wmissing-noreturn"
      ∷ codes "-fvisibility=protected"
      ∷ [];
  drop_cppflags = [];
  art_defines =
      art_gaps ++ (codes "ART_PAGE_SIZE_AGNOSTIC=1" ∷ codes "ART_DEFAULT_GC_TYPE_IS_CMS" ∷ []);
  drop_ldflags = codes "-Wl,--exclude-libs=libziparchive.a" ∷ [];
  drop_ldflags_containing = codes "art_common/out" ∷ codes "--enable-new-dtags" ∷ [];
  add_ldflags = [];
  strip_lib_prefix = true;
}

-- What the Windows targets of the 64-bit architectures have behind a list.
unfoldable pub with_wide : Text → List Text → Text → List Text
with_wide arch xs x = if contains arch wide_arches then xs ++ (x ∷ []) else xs

unfoldable pub windows_global_policy : Text → GlobalPolicy
windows_global_policy arch = record {
  name_map = store (codes "libcap") (codes "cap") common_name_map;
  host_libs = codes "libz" ∷ codes "liblz4" ∷ codes "libcap" ∷ codes "libexpat" ∷ [];
  drop_cflags =
      codes "-Werror"
      ∷ codes "-Wthread-safety"
      ∷ codes "-Wmissing-noreturn"
      ∷ codes "-fvisibility=protected"
      ∷ codes "-Wl,--exclude-libs=libziparchive.a"
      ∷ [];
  drop_cppflags = [];
  art_defines =
      with_wide arch
        (art_gaps ++ (codes "ART_PAGE_SIZE_AGNOSTIC=1" ∷ codes "ART_DEFAULT_GC_TYPE_IS_CMS" ∷ []))
        (codes "__LP64__=1");
  drop_ldflags =
      codes "-z max-page-size=0x200000"
      ∷ codes "-Wl,--exclude-libs=libziparchive.a"
      ∷ codes "-Wl,--export-dynamic"
      ∷ codes "-pie"
      ∷ codes "-static-libgcc"
      ∷ codes "-static-libstdc++"
      ∷ codes "-Wl,-z,global"
      ∷ [];
  drop_ldflags_containing =
      codes "art_common/out"
      ∷ codes "--enable-new-dtags"
      ∷ codes "Wl,-z,"
      ∷ codes "-z "
      ∷ codes "max-page-size"
      ∷ codes "z,max-page-size"
      ∷ [];
  add_ldflags =
      with_wide arch
        (codes "LINKER:/CETCOMPAT:NO" ∷ codes "LINKER:/DYNAMICBASE" ∷ codes "LINKER:/NXCOMPAT" ∷ [])
        (codes "LINKER:/HIGHENTROPYVA");
  strip_lib_prefix = true;
}

-- `_global_policy`
unfoldable pub global_policy_of : TargetProfile → Result GlobalPolicy
global_policy_of profile =
    if profile.target_platform == codes "linux"
    then ok linux_global_policy
    else if profile.target_platform == codes "windows"
    then ok (windows_global_policy profile.target_arch)
    else err value_error

-- `names`: those of the shared table, and the new ones of the delta.
unfoldable pub new_names : List Text → List Text → List Text
new_names known [] = []
new_names known (name ∷ names) =
    if contains name known then new_names known names else name ∷ new_names known names

unfoldable pub policy_of : Assoc (List Field) → Text → ModulePolicy
policy_of delta name =
    set_fields (fields_of (find name delta))
      (set_fields (fields_of (find name common_modules)) default_policy)

-- `policies[name].add_gensrc_sources = [generated_mterp]` for the two modules that compile it.
unfoldable pub with_mterp : Text → Text → ModulePolicy → ModulePolicy
with_mterp mterp_output name p =
    if contains name (codes "libart" ∷ codes "libart-runtime" ∷ [])
    then record p { add_gensrc_sources = (codes "art/asm/mterp/" ++ mterp_output) ∷ [] }
    else p

-- `_module_policies`
unfoldable pub module_policies : TargetProfile → Assoc (List Field) → Assoc ModulePolicy
module_policies profile delta =
    map (λ name. (name, with_mterp profile.mterp_output name (policy_of delta name)))
      (keys common_modules ++ new_names (keys common_modules) (keys delta))

unfoldable pub delta_of : TargetProfile → Result (Assoc (List Field))
delta_of profile =
    if profile.target_platform == codes "linux"
    then ok linux_module_delta
    else if profile.target_id == codes "windows-x86_64-msvc"
    then ok windows_module_delta
    else err value_error

-- `make_overlay`, with the check of `Overlay.__post_init__`.
unfoldable pub make_overlay : TargetProfile → Result Overlay
make_overlay profile = do
  delta ← delta_of profile
  glob ← global_policy_of profile
  checked (record {
    global_policy = glob;
    modules = module_policies profile delta;
    blueprint_scan = product_blueprint_scan;
    product_root_modules = product_root_modules;
  })

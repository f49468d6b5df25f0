-- ===== src/PortPolicy/Fields.antt =====
-- overlay/art_port_policy.py: the fields of a policy that its tables give, and the lists that they share.
use dalvikvm_multiplatform.Common.{Bool, some, List, [], ◌∷◌, Text, codes}
use dalvikvm_multiplatform.Overlay.{ModulePolicy}

abbrev pub art_gaps : List Text
art_gaps =
    codes "ART_STACK_OVERFLOW_GAP_arm=8192"
    ∷ codes "ART_STACK_OVERFLOW_GAP_arm64=8192"
    ∷ codes "ART_STACK_OVERFLOW_GAP_riscv64=8192"
    ∷ codes "ART_STACK_OVERFLOW_GAP_x86=8192"
    ∷ codes "ART_STACK_OVERFLOW_GAP_x86_64=8192"
    ∷ codes "ART_FRAME_SIZE_LIMIT=1744"
    ∷ []

abbrev pub art_base_addresses : List Text
art_base_addresses =
    codes "ART_BASE_ADDRESS=0x60000000"
    ∷ codes "ART_BASE_ADDRESS_MIN_DELTA=(-0x1000000)"
    ∷ codes "ART_BASE_ADDRESS_MAX_DELTA=0x1000000"
    ∷ []

abbrev pub windows_art_target : List Text
windows_art_target =
    codes "ART_TARGET"
    ∷ codes "ART_TARGET_WINDOWS"
    ∷ codes "ART_DEFAULT_GC_TYPE_IS_CMS"
    ∷ codes "USE_D8_DESUGAR=1"
    ∷ []

abbrev pub windows_cflags : List Text
windows_cflags =
    codes "-Wno-thread-safety"
    ∷ codes "-Wno-unused-command-line-argument"
    ∷ codes "-Wno-microsoft-cast"
    ∷ []

-- An argument of `dict` in a table, by its name.
pub data Field : Type 0 where
  kind_is : Text → Field
  absorb_whole_static_is : Bool → Field
  add_srcs_are : List Text → Field
  remove_srcs_are : List Text → Field
  add_shared_libs_are : List Text → Field
  remove_shared_libs_are : List Text → Field
  remove_static_libs_are : List Text → Field
  add_cflags_are : List Text → Field
  add_cppflags_are : List Text → Field
  add_ldflags_are : List Text → Field
  add_defines_are : List Text → Field
  add_public_defines_are : List Text → Field
  set_c_std_is : Text → Field
  set_cpp_std_is : Text → Field
  add_include_dirs_are : List Text → Field
  add_compat_include_dirs_are : List Text → Field
  add_gensrc_includes_are : List Text → Field
  force_enabled_is : Bool → Field

-- The policy with the argument instead of what the field had.
unfoldable pub set_field : Field → ModulePolicy → ModulePolicy
set_field (kind_is x) p = record p { kind = some x }
set_field (absorb_whole_static_is x) p = record p { absorb_whole_static = x }
set_field (add_srcs_are x) p = record p { add_srcs = x }
set_field (remove_srcs_are x) p = record p { remove_srcs = x }
set_field (add_shared_libs_are x) p = record p { add_shared_libs = x }
set_field (remove_shared_libs_are x) p = record p { remove_shared_libs = x }
set_field (remove_static_libs_are x) p = record p { remove_static_libs = x }
set_field (add_cflags_are x) p = record p { add_cflags = x }
set_field (add_cppflags_are x) p = record p { add_cppflags = x }
set_field (add_ldflags_are x) p = record p { add_ldflags = x }
set_field (add_defines_are x) p = record p { add_defines = x }
set_field (add_public_defines_are x) p = record p { add_public_defines = x }
set_field (set_c_std_is x) p = record p { set_c_std = some x }
set_field (set_cpp_std_is x) p = record p { set_cpp_std = some x }
set_field (add_include_dirs_are x) p = record p { add_include_dirs = x }
set_field (add_compat_include_dirs_are x) p = record p { add_compat_include_dirs = x }
set_field (add_gensrc_includes_are x) p = record p { add_gensrc_includes = x }
set_field (force_enabled_is x) p = record p { force_enabled = x }

-- ===== src/PortPolicy/Windows/Runtime.antt =====
-- overlay/art_port_policy.py: the fields of the Windows target, for the modules of the runtime.
use dalvikvm_multiplatform.Common.{true, List, [], ◌∷◌, ◌++◌, codes, Assoc}
use dalvikvm_multiplatform.PortPolicy.Fields.{
  Field, add_cflags_are, add_defines_are, add_gensrc_includes_are, add_include_dirs_are,
  add_public_defines_are, add_shared_libs_are, add_srcs_are, force_enabled_is, kind_is,
  remove_srcs_are, remove_static_libs_are, art_gaps, art_base_addresses, windows_art_target,
  windows_cflags,
}

-- The first entries of _WINDOWS_MODULE_DELTA.
unfoldable pub windows_runtime_delta : Assoc (List Field)
windows_runtime_delta =
    (
      codes "dalvikvm",
      add_shared_libs_are
            (codes "libart" ∷ codes "libsigchain" ∷ codes "liblog" ∷ codes "libnativehelper" ∷ [])
          ∷ add_cflags_are windows_cflags
          ∷ add_defines_are (codes "_CRT_SECURE_NO_WARNINGS" ∷ [])
          ∷ force_enabled_is true
          ∷ [],
    )
    ∷ (
      codes "dex2oat",
      add_cflags_are windows_cflags
          ∷ add_defines_are (
              codes "_CRT_SECURE_NO_WARNINGS"
              ∷ codes "ART_CONSUMING_LIBART"
              ∷ codes "MDVM_WINDOWS_DEX2OAT_COMPAT"
              ∷ [])
          ∷ force_enabled_is true
          ∷ [],
    )
    ∷ (
      codes "oatdump",
      add_cflags_are windows_cflags
          ∷ add_defines_are (codes "_CRT_SECURE_NO_WARNINGS" ∷ codes "ART_CONSUMING_LIBART" ∷ [])
          ∷ force_enabled_is true
          ∷ [],
    )
    ∷ (
      codes "libart",
      remove_srcs_are
            (codes "monitor_linux.cc" ∷ codes "runtime_linux.cc" ∷ codes "thread_linux.cc" ∷ [])
          ∷ add_cflags_are windows_cflags
          ∷ add_defines_are (
              (art_base_addresses
                ++ (codes "BUILDING_LIBART" ∷ codes "_CRT_SECURE_NO_WARNINGS" ∷ []))
              ++ art_gaps)
          ∷ add_public_defines_are (windows_art_target ++ art_gaps)
          ∷ add_gensrc_includes_are (codes "art/asm/include" ∷ codes "art/aconfig/include" ∷ [])
          ∷ force_enabled_is true
          ∷ [],
    )
    ∷ (
      codes "libart-compiler",
      add_cflags_are windows_cflags
          ∷ add_defines_are (codes "_CRT_SECURE_NO_WARNINGS" ∷ [])
          ∷ force_enabled_is true
          ∷ [],
    )
    ∷ (
      codes "libart-dex2oat",
      add_cflags_are windows_cflags
          ∷ add_defines_are (
              codes "_CRT_SECURE_NO_WARNINGS"
              ∷ codes "ART_CONSUMING_LIBART"
              ∷ codes "MDVM_WINDOWS_DEX2OAT_COMPAT"
              ∷ [])
          ∷ force_enabled_is true
          ∷ [],
    )
    ∷ (codes "libart-disassembler", add_cflags_are windows_cflags ∷ force_enabled_is true ∷ [])
    ∷ (
      codes "libart-runtime",
      kind_is (codes "static")
          ∷ remove_srcs_are
              (codes "monitor_linux.cc" ∷ codes "runtime_linux.cc" ∷ codes "thread_linux.cc" ∷ [])
          ∷ add_cflags_are (windows_cflags ++ (codes "-fno-delete-null-pointer-checks" ∷ []))
          ∷ add_defines_are (codes "_CRT_SECURE_NO_WARNINGS" ∷ codes "BUILDING_LIBART" ∷ [])
          ∷ add_public_defines_are (windows_art_target ++ art_gaps)
          ∷ add_include_dirs_are (codes "external/cpu_features/include" ∷ [])
          ∷ add_gensrc_includes_are (codes "art/asm/include" ∷ codes "art/aconfig/include" ∷ [])
          ∷ force_enabled_is true
          ∷ [],
    )
    ∷ (
      codes "libartbase",
      kind_is (codes "shared")
          ∷ add_shared_libs_are (
              codes "libziparchive"
              ∷ codes "libz"
              ∷ codes "liblog"
              ∷ codes "libartpalette"
              ∷ codes "libbase"
              ∷ [])
          ∷ remove_static_libs_are (
              codes "art-aconfig-flags-lib"
              ∷ codes "art-aconfig-rw-flags-lib"
              ∷ codes "libaconfig_storage_read_api_cc"
              ∷ codes "libcore-aconfig-flags-native-lib"
              ∷ codes "libcap"
              ∷ codes "libziparchive"
              ∷ codes "libz"
              ∷ codes "liblog"
              ∷ codes "libartpalette"
              ∷ codes "libbase"
              ∷ [])
          ∷ add_cflags_are windows_cflags
          ∷ add_defines_are (codes "_CRT_SECURE_NO_WARNINGS" ∷ codes "BUILDING_LIBARTBASE" ∷ [])
          ∷ add_gensrc_includes_are (codes "art/aconfig/include" ∷ [])
          ∷ force_enabled_is true
          ∷ [],
    )
    ∷ (
      codes "libartpalette",
      remove_static_libs_are (codes "libbase" ∷ codes "liblog" ∷ []) ∷ force_enabled_is true ∷ [],
    )
    ∷ (
      codes "libbase",
      add_cflags_are windows_cflags
          ∷ add_defines_are (codes "_CRT_SECURE_NO_WARNINGS" ∷ [])
          ∷ force_enabled_is true
          ∷ [],
    )
    ∷ (
      codes "libcpu_features",
      remove_srcs_are (codes "src/impl_x86_linux_or_android.c" ∷ [])
          ∷ add_srcs_are (codes "src/impl_x86_windows.c" ∷ [])
          ∷ force_enabled_is true
          ∷ [],
    )
    ∷ (
      codes "libdexfile",
      kind_is (codes "static")
          ∷ add_cflags_are windows_cflags
          ∷ add_public_defines_are art_gaps
          ∷ force_enabled_is true
          ∷ [],
    )
    ∷ (
      codes "libelffile",
      kind_is (codes "static") ∷ add_cflags_are windows_cflags ∷ force_enabled_is true ∷ [],
    )
    ∷ (codes "libicu", force_enabled_is true ∷ [])
    ∷ (codes "libicu_jni", add_cflags_are windows_cflags ∷ force_enabled_is true ∷ [])
    ∷ []

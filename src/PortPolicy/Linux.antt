-- ===== src/PortPolicy/Linux.antt =====
-- overlay/art_port_policy.py: the fields of Linux targets.
use dalvikvm_multiplatform.Common.{List, [], ◌∷◌, ◌++◌, codes, Assoc}
use dalvikvm_multiplatform.PortPolicy.Fields.{
  Field, add_cflags_are, add_defines_are, add_gensrc_includes_are, add_include_dirs_are,
  add_ldflags_are, add_public_defines_are, add_shared_libs_are, kind_is, remove_srcs_are,
  remove_static_libs_are, set_c_std_is, art_gaps, art_base_addresses,
}

-- _LINUX_MODULE_DELTA
unfoldable pub linux_module_delta : Assoc (List Field)
linux_module_delta =
    (
      codes "dalvikvm",
      add_shared_libs_are (codes "libart" ∷ codes "libsigchain" ∷ [])
          ∷ add_cflags_are (codes "-fPIC" ∷ [])
          ∷ add_ldflags_are (codes "-pie" ∷ [])
          ∷ [],
    )
    ∷ (
      codes "dex2oat",
      add_cflags_are (codes "-fPIC" ∷ []) ∷ add_ldflags_are (codes "-pie" ∷ []) ∷ [],
    )
    ∷ (
      codes "oatdump",
      add_cflags_are (codes "-fPIC" ∷ []) ∷ add_ldflags_are (codes "-pie" ∷ []) ∷ [],
    )
    ∷ (
      codes "libandroidicuinit",
      kind_is (codes "static") ∷ add_cflags_are (codes "-fPIC" ∷ []) ∷ [],
    )
    ∷ (codes "libandroidio", kind_is (codes "shared") ∷ [])
    ∷ (
      codes "libart",
      add_defines_are (art_base_addresses ++ art_gaps)
          ∷ add_public_defines_are (
              codes "ART_DEFAULT_GC_TYPE_IS_CMS"
              ∷ codes "USE_D8_DESUGAR=1"
              ∷ codes "ART_TARGET"
              ∷ codes "ART_TARGET_LINUX"
              ∷ [])
          ∷ add_gensrc_includes_are (codes "art/asm/include" ∷ [])
          ∷ [],
    )
    ∷ (
      codes "libartbase",
      kind_is (codes "shared")
          ∷ remove_static_libs_are (
              codes "art-aconfig-flags-lib"
              ∷ codes "art-aconfig-rw-flags-lib"
              ∷ codes "libaconfig_storage_read_api_cc"
              ∷ codes "libcore-aconfig-flags-native-lib"
              ∷ [])
          ∷ [],
    )
    ∷ (codes "libbase", add_defines_are (codes "_FILE_OFFSET_BITS=64" ∷ []) ∷ [])
    ∷ (
      codes "libcrypto",
      kind_is (codes "shared")
          ∷ add_cflags_are (
              codes "-fPIC"
              ∷ codes "-fvisibility=hidden"
              ∷ codes "-Wno-unused-parameter"
              ∷ codes "-Wno-deprecated-declarations"
              ∷ [])
          ∷ add_defines_are (
              codes "BORINGSSL_SHARED_LIBRARY"
              ∷ codes "BORINGSSL_ANDROID_SYSTEM"
              ∷ codes "OPENSSL_SMALL"
              ∷ [])
          ∷ add_public_defines_are (codes "BORINGSSL_IMPLEMENTATION" ∷ [])
          ∷ [],
    )
    ∷ (
      codes "libcrypto_static",
      kind_is (codes "static")
          ∷ add_cflags_are (
              codes "-fPIC"
              ∷ codes "-fvisibility=hidden"
              ∷ codes "-Wno-unused-parameter"
              ∷ codes "-Wno-deprecated-declarations"
              ∷ [])
          ∷ add_defines_are (codes "BORINGSSL_ANDROID_SYSTEM" ∷ codes "OPENSSL_SMALL" ∷ [])
          ∷ add_public_defines_are (codes "BORINGSSL_IMPLEMENTATION" ∷ [])
          ∷ [],
    )
    ∷ (codes "libdexfile", kind_is (codes "shared") ∷ [])
    ∷ (codes "libelffile", add_cflags_are (codes "-fPIC" ∷ []) ∷ [])
    ∷ (
      codes "libfdlibm",
      add_cflags_are (codes "-fPIC" ∷ [])
          ∷ add_defines_are (codes "_IEEE_LIBM" ∷ codes "__LITTLE_ENDIAN" ∷ [])
          ∷ [],
    )
    ∷ (codes "libicu", add_cflags_are (codes "-fvisibility=protected" ∷ []) ∷ [])
    ∷ (
      codes "libicu_jni",
      add_cflags_are (codes "-fvisibility=protected" ∷ codes "-Wno-unused-parameter" ∷ []) ∷ [],
    )
    ∷ (codes "libjavacrypto", add_defines_are (codes "ANDROID" ∷ []) ∷ [])
    ∷ (
      codes "libicui18n",
      kind_is (codes "shared")
          ∷ add_cflags_are (
              codes "-fPIC"
              ∷ codes "-fvisibility=hidden"
              ∷ codes "-frtti"
              ∷ codes "-Wno-unused-parameter"
              ∷ codes "-Wno-deprecated-declarations"
              ∷ [])
          ∷ add_defines_are (codes "U_I18N_IMPLEMENTATION" ∷ codes "PIC" ∷ codes "_REENTRANT" ∷ [])
          ∷ [],
    )
    ∷ (
      codes "libicuuc",
      kind_is (codes "shared")
          ∷ add_cflags_are (
              codes "-fPIC"
              ∷ codes "-fvisibility=hidden"
              ∷ codes "-frtti"
              ∷ codes "-Wno-unused-parameter"
              ∷ codes "-Wno-deprecated-declarations"
              ∷ [])
          ∷ add_defines_are
              (codes "U_COMMON_IMPLEMENTATION" ∷ codes "PIC" ∷ codes "_REENTRANT" ∷ [])
          ∷ [],
    )
    ∷ (
      codes "libicuuc_stubdata",
      kind_is (codes "static") ∷ add_cflags_are (codes "-fPIC" ∷ []) ∷ [],
    )
    ∷ (
      codes "libjavacore",
      add_cflags_are (
            codes "-fvisibility=protected"
            ∷ codes "-Wno-unused-parameter"
            ∷ codes "-Wno-unused-variable"
            ∷ codes "-Wno-parentheses-equality"
            ∷ codes "-Wno-constant-logical-operand"
            ∷ codes "-Wno-sometimes-uninitialized"
            ∷ [])
          ∷ add_defines_are (
              codes "U_USING_ICU_NAMESPACE=0"
              ∷ codes "__GLIBC__"
              ∷ codes "_LARGEFILE64_SOURCE"
              ∷ codes "_GNU_SOURCE"
              ∷ codes "LINUX"
              ∷ codes "__INTRODUCED_IN(x)="
              ∷ codes "LIBICU_U_SHOW_CPLUSPLUS_API=1"
              ∷ [])
          ∷ add_include_dirs_are (codes "external/boringssl/src/include" ∷ [])
          ∷ [],
    )
    ∷ (codes "liblog", remove_srcs_are (codes "logprint.cpp" ∷ codes "event_tag_map.cpp" ∷ []) ∷ [])
    ∷ (codes "libnativehelper", set_c_std_is (codes "gnu11") ∷ [])
    ∷ (codes "libodrstatslog", add_cflags_are (codes "-fPIC" ∷ []) ∷ [])
    ∷ (
      codes "libopenjdk",
      add_cflags_are (codes "-fvisibility=protected" ∷ codes "-Wno-unused-parameter" ∷ [])
          ∷ add_defines_are (
              codes "U_USING_ICU_NAMESPACE=0"
              ∷ codes "__GLIBC__"
              ∷ codes "_LARGEFILE64_SOURCE"
              ∷ codes "_GNU_SOURCE"
              ∷ codes "LINUX"
              ∷ codes "__INTRODUCED_IN(x)="
              ∷ [])
          ∷ add_include_dirs_are (codes "external/boringssl/src/include" ∷ [])
          ∷ [],
    )
    ∷ (codes "libprofile", kind_is (codes "shared") ∷ [])
    ∷ (codes "libsigchain", add_defines_are (codes "CHAR_BIT=8" ∷ []) ∷ [])
    ∷ (codes "libunwindstack", kind_is (codes "shared") ∷ [])
    ∷ (codes "libvixl", add_cflags_are (codes "-fPIC" ∷ []) ∷ [])
    ∷ []

-- ===== src/PortPolicy/Shared.antt =====
-- overlay/art_port_policy.py: the fields that the targets share.
use dalvikvm_multiplatform.Common.{false, List, [], ◌∷◌, codes, Assoc}
use dalvikvm_multiplatform.PortPolicy.Fields.{
  Field, absorb_whole_static_is, add_compat_include_dirs_are, add_cppflags_are, add_defines_are,
  add_include_dirs_are, add_public_defines_are, add_shared_libs_are, add_srcs_are, kind_is,
  remove_shared_libs_are, remove_static_libs_are, set_cpp_std_is, art_gaps,
}

-- _COMMON_MODULES
unfoldable pub common_modules : Assoc (List Field)
common_modules =
    (codes "dalvikvm", kind_is (codes "executable") ∷ absorb_whole_static_is false ∷ [])
    ∷ (
      codes "dex2oat",
      kind_is (codes "executable")
          ∷ absorb_whole_static_is false
          ∷ add_shared_libs_are (
              codes "libart-dex2oat"
              ∷ codes "libart-compiler"
              ∷ codes "libart"
              ∷ codes "libartbase"
              ∷ codes "libdexfile"
              ∷ codes "libprofile"
              ∷ codes "libartpalette"
              ∷ codes "libelffile"
              ∷ [])
          ∷ remove_static_libs_are (codes "libdex2oat_static" ∷ [])
          ∷ [],
    )
    ∷ (
      codes "oatdump",
      kind_is (codes "executable")
          ∷ absorb_whole_static_is false
          ∷ add_shared_libs_are (
              codes "libart"
              ∷ codes "libart-disassembler"
              ∷ codes "libartbase"
              ∷ codes "libbase"
              ∷ codes "libdexfile"
              ∷ codes "libprofile"
              ∷ codes "libelffile"
              ∷ [])
          ∷ remove_static_libs_are (codes "liboatdump_static" ∷ [])
          ∷ [],
    )
    ∷ (
      codes "libart",
      kind_is (codes "shared")
          ∷ add_include_dirs_are (codes "external/cpu_features/include" ∷ [])
          ∷ [],
    )
    ∷ (
      codes "libart-compiler",
      kind_is (codes "shared")
          ∷ add_shared_libs_are (codes "libart" ∷ codes "libart-disassembler" ∷ [])
          ∷ [],
    )
    ∷ (
      codes "libart-dex2oat",
      kind_is (codes "shared") ∷ add_shared_libs_are (codes "libart-compiler" ∷ []) ∷ [],
    )
    ∷ (codes "libart-disassembler", kind_is (codes "shared") ∷ [])
    ∷ (codes "libartbase", add_public_defines_are art_gaps ∷ [])
    ∷ (
      codes "libartpalette",
      kind_is (codes "shared") ∷ add_shared_libs_are (codes "libbase" ∷ codes "liblog" ∷ []) ∷ [],
    )
    ∷ (
      codes "libbase",
      kind_is (codes "shared") ∷ add_cppflags_are (codes "-Wno-deprecated-declarations" ∷ []) ∷ [],
    )
    ∷ (
      codes "libcpu_features",
      kind_is (codes "static")
          ∷ add_defines_are (codes "HAVE_STRONG_GETAUXVAL" ∷ codes "HAVE_DLFCN_H" ∷ [])
          ∷ [],
    )
    ∷ (codes "libdexfile", add_srcs_are (codes "external/dex_file_supp.cc" ∷ []) ∷ [])
    ∷ (
      codes "libicu",
      kind_is (codes "shared")
          ∷ add_defines_are (codes "U_SHOW_CPLUSPLUS_API=0" ∷ codes "__INTRODUCED_IN(x)=" ∷ [])
          ∷ [],
    )
    ∷ (
      codes "libicu_jni",
      kind_is (codes "shared")
          ∷ add_defines_are (
              codes "U_USING_ICU_NAMESPACE=0"
              ∷ codes "ANDROID_LINK_SHARED_ICU4C"
              ∷ codes "__INTRODUCED_IN(x)="
              ∷ [])
          ∷ [],
    )
    ∷ (codes "libcrypto", kind_is (codes "shared") ∷ [])
    ∷ (codes "libssl", kind_is (codes "shared") ∷ [])
    ∷ (
      codes "libjavacrypto",
      kind_is (codes "shared")
          ∷ remove_static_libs_are (codes "libcrypto" ∷ codes "libssl" ∷ [])
          ∷ add_shared_libs_are (codes "libcrypto" ∷ codes "libssl" ∷ [])
          ∷ [],
    )
    ∷ (
      codes "libjavacore",
      kind_is (codes "shared")
          ∷ remove_static_libs_are (codes "libnativehelper_compat_libc++" ∷ [])
          ∷ [],
    )
    ∷ (codes "liblog", kind_is (codes "shared") ∷ [])
    ∷ (codes "liblzma", kind_is (codes "shared") ∷ [])
    ∷ (codes "libnativebridge", kind_is (codes "shared") ∷ [])
    ∷ (codes "libnativehelper", kind_is (codes "shared") ∷ [])
    ∷ (codes "libnativeloader", kind_is (codes "shared") ∷ [])
    ∷ (
      codes "libopenjdk",
      kind_is (codes "shared")
          ∷ remove_static_libs_are (codes "libnativehelper_compat_libc++" ∷ [])
          ∷ [],
    )
    ∷ (codes "libopenjdkjvm", kind_is (codes "shared") ∷ [])
    ∷ (codes "libopenjdkjvmti", kind_is (codes "shared") ∷ [])
    ∷ (codes "libprocinfo", kind_is (codes "shared") ∷ [])
    ∷ (codes "libsigchain", kind_is (codes "shared") ∷ [])
    ∷ (
      codes "libtinyxml2",
      kind_is (codes "shared") ∷ remove_shared_libs_are (codes "liblog" ∷ []) ∷ [],
    )
    ∷ (codes "libvixl", kind_is (codes "static") ∷ [])
    ∷ (
      codes "libunwindstack",
      add_shared_libs_are (codes "libdexfile" ∷ [])
          ∷ remove_static_libs_are
              (codes "libdexfile_support" ∷ codes "librustc_demangle_static" ∷ [])
          ∷ set_cpp_std_is (codes "gnu++20")
          ∷ [],
    )
    ∷ (
      codes "libziparchive",
      kind_is (codes "shared") ∷ add_compat_include_dirs_are (codes "." ∷ []) ∷ [],
    )
    ∷ []

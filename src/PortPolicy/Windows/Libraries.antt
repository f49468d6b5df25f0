-- ===== src/PortPolicy/Windows/Libraries.antt =====
-- overlay/art_port_policy.py: the fields of the Windows target, for the libraries.
use dalvikvm_multiplatform.Common.{true, List, [], ◌∷◌, ◌++◌, codes, Assoc}
use dalvikvm_multiplatform.PortPolicy.Fields.{
  Field, add_cflags_are, add_defines_are, add_shared_libs_are, force_enabled_is, kind_is,
  remove_srcs_are, set_c_std_is, windows_cflags,
}

-- The other entries of _WINDOWS_MODULE_DELTA.
unfoldable pub windows_library_delta : Assoc (List Field)
windows_library_delta =
    (
      codes "libcrypto",
      add_cflags_are (
            windows_cflags
            ++ (codes "-fvisibility=hidden"
                ∷ codes "-Wno-unused-parameter"
                ∷ codes "-Wno-deprecated-declarations"
                ∷ codes "-Wno-bitwise-op-parentheses"
                ∷ codes "-Wno-unknown-pragmas"
                ∷ []))
          ∷ add_defines_are (
              codes "BORINGSSL_SHARED_LIBRARY"
              ∷ codes "BORINGSSL_ANDROID_SYSTEM"
              ∷ codes "BORINGSSL_IMPLEMENTATION"
              ∷ codes "OPENSSL_NO_ASM"
              ∷ codes "OPENSSL_SMALL"
              ∷ [])
          ∷ add_shared_libs_are (codes "bcrypt" ∷ codes "advapi32" ∷ [])
          ∷ force_enabled_is true
          ∷ [],
    )
    ∷ (
      codes "libssl",
      add_cflags_are (windows_cflags ++ (codes "-Wno-unused-parameter" ∷ []))
          ∷ add_defines_are (codes "OPENSSL_NO_ASM" ∷ [])
          ∷ force_enabled_is true
          ∷ [],
    )
    ∷ (
      codes "libjavacrypto",
      add_cflags_are
            (windows_cflags ++ (codes "-Wno-unused-parameter" ∷ codes "-Wno-sign-compare" ∷ []))
          ∷ add_defines_are (
              codes "CONSCRYPT_OPENJDK"
              ∷ codes "OPENSSL_NO_ASM"
              ∷ codes "CONST=const"
              ∷ codes "MDVM_WINDOWS_KEEP_CONST_MACRO=1"
              ∷ [])
          ∷ force_enabled_is true
          ∷ [],
    )
    ∷ (
      codes "libjavacore",
      remove_srcs_are (
            codes "libcore_io_Linux.cpp"
            ∷ codes "cbigint.cpp"
            ∷ codes "android_system_OsConstantsHolder.cpp"
            ∷ [])
          ∷ add_shared_libs_are (codes "libicuuc" ∷ codes "libicui18n" ∷ codes "libopenjdkjvm" ∷ [])
          ∷ add_cflags_are windows_cflags
          ∷ add_defines_are (
              codes "U_USING_ICU_NAMESPACE=0"
              ∷ codes "ANDROID_LINK_SHARED_ICU4C"
              ∷ codes "LIBICU_U_SHOW_CPLUSPLUS_API=1"
              ∷ codes "MDVM_WINDOWS_KEEP_CONST_MACRO"
              ∷ codes "__INTRODUCED_IN(x)="
              ∷ [])
          ∷ force_enabled_is true
          ∷ [],
    )
    ∷ (
      codes "liblog",
      remove_srcs_are
            (codes "logprint.cpp" ∷ codes "event_tag_map.cpp" ∷ codes "logger_name.cpp" ∷ [])
          ∷ add_defines_are (codes "_CRT_SECURE_NO_WARNINGS" ∷ [])
          ∷ force_enabled_is true
          ∷ [],
    )
    ∷ (codes "liblzma", remove_srcs_are (codes "AesOpt.c" ∷ []) ∷ force_enabled_is true ∷ [])
    ∷ (codes "libnativebridge", add_cflags_are windows_cflags ∷ force_enabled_is true ∷ [])
    ∷ (
      codes "libnativehelper",
      add_defines_are (codes "_CRT_SECURE_NO_WARNINGS" ∷ [])
          ∷ set_c_std_is (codes "c11")
          ∷ force_enabled_is true
          ∷ [],
    )
    ∷ (codes "libnativeloader", add_cflags_are windows_cflags ∷ force_enabled_is true ∷ [])
    ∷ (
      codes "libodrstatslog",
      kind_is (codes "static") ∷ add_cflags_are windows_cflags ∷ force_enabled_is true ∷ [],
    )
    ∷ (
      codes "libopenjdk",
      remove_srcs_are (
            codes "linux_close.cpp"
            ∷ codes "NativeThread.c"
            ∷ codes "OnLoad.cpp"
            ∷ codes "LinuxNativeDispatcher.c"
            ∷ codes "LinuxWatchService.c"
            ∷ codes "UnixCopyFile.c"
            ∷ codes "UnixNativeDispatcher.c"
            ∷ codes "UNIXProcess_md.c"
            ∷ codes "EPollPort.c"
            ∷ codes "UnixAsynchronousServerSocketChannelImpl.c"
            ∷ codes "UnixAsynchronousSocketChannelImpl.c"
            ∷ codes "FileSystemPreferences.c"
            ∷ codes "UnixDomainSockets.c"
            ∷ codes "UnixFileSystem_md.c"
            ∷ codes "System.c"
            ∷ codes "Runtime.c"
            ∷ [])
          ∷ add_shared_libs_are (codes "libicuuc" ∷ codes "libopenjdkjvm" ∷ [])
          ∷ add_cflags_are windows_cflags
          ∷ add_defines_are
              (codes "U_USING_ICU_NAMESPACE=0" ∷ codes "_LP64=1" ∷ codes "__INTRODUCED_IN(x)=" ∷ [])
          ∷ force_enabled_is true
          ∷ [],
    )
    ∷ (
      codes "libopenjdkjvm",
      add_cflags_are windows_cflags
          ∷ add_defines_are
              (codes "ART_CONSUMING_LIBART" ∷ codes "MDVM_SOCKET_FD_REGISTRY_EXPORTS=1" ∷ [])
          ∷ force_enabled_is true
          ∷ [],
    )
    ∷ (
      codes "libopenjdkjvmti",
      add_cflags_are windows_cflags
          ∷ add_defines_are (codes "ART_CONSUMING_LIBART" ∷ codes "_CRT_SECURE_NO_WARNINGS" ∷ [])
          ∷ force_enabled_is true
          ∷ [],
    )
    ∷ (codes "libprocinfo", remove_srcs_are (codes "process.cpp" ∷ []) ∷ force_enabled_is true ∷ [])
    ∷ (
      codes "libprofile",
      kind_is (codes "static") ∷ add_cflags_are windows_cflags ∷ force_enabled_is true ∷ [],
    )
    ∷ (
      codes "libsigchain",
      remove_srcs_are (codes "sigchain.cc" ∷ codes "sigchain_fake.cc" ∷ [])
          ∷ add_cflags_are windows_cflags
          ∷ add_defines_are (codes "CHAR_BIT=8" ∷ codes "_CRT_SECURE_NO_WARNINGS" ∷ [])
          ∷ force_enabled_is true
          ∷ [],
    )
    ∷ (codes "libtinyxml2", force_enabled_is true ∷ [])
    ∷ (
      codes "libunwindstack",
      kind_is (codes "static")
          ∷ remove_srcs_are (
              codes "AsmGetRegsX86_64.S"
              ∷ codes "AsmGetRegsX86.S"
              ∷ codes "AsmGetRegsArm.S"
              ∷ codes "AsmGetRegsArm64.S"
              ∷ [])
          ∷ add_cflags_are windows_cflags
          ∷ force_enabled_is true
          ∷ [],
    )
    ∷ (
      codes "libziparchive",
      add_defines_are (codes "_CRT_SECURE_NO_WARNINGS" ∷ []) ∷ force_enabled_is true ∷ [],
    )
    ∷ []

-- ===== src/Target/Tables.antt =====
-- tools/bp2cmake/bp2cmake/target.py: the closed tables of the target registry, in the order of the
-- source.
use dalvikvm_multiplatform.Common.{ℕ, List, [], ◌∷◌, ◌++◌, Text, codes, Assoc}

-- The arguments of one call of `_profile`.
pub record ProfileSpec : Type 0 where
  pub target_id : Text
  pub target_platform : Text
  pub target_arch : Text
  pub base_isa : Text
  pub aosp_arch : Text
  pub target_abi : Text
  pub object_format : Text
  pub pointer_bits : ℕ
  pub triple : Text
  pub cmake_system_name : Text
  pub status : Text
  pub capabilities : List Text
  pub reason : Text

abbrev pub target_platforms : List Text
target_platforms = codes "linux" ∷ codes "windows" ∷ codes "wasm" ∷ codes "uefi" ∷ []

abbrev pub target_arches : List Text
target_arches =
    codes "x86"
    ∷ codes "x86_64"
    ∷ codes "armv7"
    ∷ codes "aarch64"
    ∷ codes "riscv64"
    ∷ codes "arm64ec"
    ∷ codes "wasm32"
    ∷ codes "wasm64"
    ∷ []

abbrev pub target_abis : List Text
target_abis = codes "gnu" ∷ codes "msvc" ∷ codes "posixshim" ∷ []

abbrev pub native_capabilities : List Text
native_capabilities =
    codes "native"
    ∷ codes "dso"
    ∷ codes "threads"
    ∷ codes "virtual_memory"
    ∷ codes "executable_memory"
    ∷ codes "dynamic_loading"
    ∷ codes "target_assembly"
    ∷ []

abbrev windows_placeholder_reason : Text
windows_placeholder_reason =
    codes "recognized registry placeholder; implementation "
    ++ codes "is not expected on the near or far roadmap"

abbrev posixshim_art_reason : Text
posixshim_art_reason =
    codes "ART requires native DSO, executable-memory, "
    ++ codes "signal/fault, threading, and JIT contracts"

abbrev uefi_art_reason : Text
uefi_art_reason =
    codes "UEFI lacks ART's required process, threading, signal/fault, "
    ++ codes "virtual-memory, dynamic-loader, and native DSO contracts"

-- Mterp input directories and outputs by AOSP architecture: _MTERP_LAYOUTS.
abbrev pub mterp_layouts : Assoc (Text × Text)
mterp_layouts =
    (codes "x86", (codes "x86ng", codes "mterp_x86.S"))
    ∷ (codes "x86_64", (codes "x86_64ng", codes "mterp_x86_64.S"))
    ∷ (codes "arm", (codes "armng", codes "mterp_arm.S"))
    ∷ (codes "arm64", (codes "arm64ng", codes "mterp_arm64.S"))
    ∷ (codes "riscv64", (codes "riscv64", codes "mterp_riscv64.S"))
    ∷ []

-- What llvm-readobj prints by platform and architecture: _LLVM_FILE_IDENTITIES.
abbrev pub llvm_file_identities : List ((Text × Text) × (Text × Text))
llvm_file_identities =
    ((codes "linux", codes "x86"), (codes "elf32-i386", codes "i386"))
    ∷ ((codes "linux", codes "x86_64"), (codes "elf64-x86-64", codes "x86_64"))
    ∷ ((codes "linux", codes "armv7"), (codes "elf32-littlearm", codes "arm"))
    ∷ ((codes "linux", codes "aarch64"), (codes "elf64-littleaarch64", codes "aarch64"))
    ∷ ((codes "linux", codes "riscv64"), (codes "elf64-littleriscv", codes "riscv64"))
    ∷ ((codes "windows", codes "x86"), (codes "COFF-i386", codes "i386"))
    ∷ ((codes "windows", codes "x86_64"), (codes "COFF-x86-64", codes "x86_64"))
    ∷ ((codes "windows", codes "armv7"), (codes "COFF-ARM", codes "thumb"))
    ∷ ((codes "windows", codes "aarch64"), (codes "COFF-ARM64", codes "aarch64"))
    ∷ ((codes "windows", codes "arm64ec"), (codes "COFF-ARM64EC", codes "aarch64"))
    ∷ ((codes "wasm", codes "wasm32"), (codes "WASM", codes "wasm32"))
    ∷ ((codes "wasm", codes "wasm64"), (codes "WASM", codes "wasm64"))
    ∷ ((codes "uefi", codes "x86_64"), (codes "COFF-x86-64", codes "x86_64"))
    ∷ ((codes "uefi", codes "aarch64"), (codes "COFF-ARM64", codes "aarch64"))
    ∷ ((codes "uefi", codes "riscv64"), (codes "elf64-littleriscv", codes "riscv64"))
    ∷ []

-- The calls of `_profile`, each under its key: _PROFILES.
abbrev pub profile_specs : Assoc ProfileSpec
profile_specs =
    (
      codes "linux-x86-gnu",
      record {
        target_id = codes "linux-x86-gnu";
        target_platform = codes "linux";
        target_arch = codes "x86";
        base_isa = codes "x86";
        aosp_arch = codes "x86";
        target_abi = codes "gnu";
        object_format = codes "elf32";
        pointer_bits = 32;
        triple = codes "i686-unknown-linux-gnu";
        cmake_system_name = codes "Linux";
        status = codes "planned";
        capabilities = [];
        reason = codes "32-bit dependency and runtime gates are not validated";
      },
    )
    ∷ (
      codes "linux-x86_64-gnu",
      record {
        target_id = codes "linux-x86_64-gnu";
        target_platform = codes "linux";
        target_arch = codes "x86_64";
        base_isa = codes "x86_64";
        aosp_arch = codes "x86_64";
        target_abi = codes "gnu";
        object_format = codes "elf64";
        pointer_bits = 64;
        triple = codes "x86_64-unknown-linux-gnu";
        cmake_system_name = codes "Linux";
        status = codes "supported";
        capabilities =
            native_capabilities ++ (codes "boot_image" ∷ codes "signals" ∷ codes "jit" ∷ []);
        reason = [];
      },
    )
    ∷ (
      codes "linux-armv7-gnu",
      record {
        target_id = codes "linux-armv7-gnu";
        target_platform = codes "linux";
        target_arch = codes "armv7";
        base_isa = codes "armv7";
        aosp_arch = codes "arm";
        target_abi = codes "gnu";
        object_format = codes "elf32";
        pointer_bits = 32;
        triple = codes "armv7-unknown-linux-gnueabihf";
        cmake_system_name = codes "Linux";
        status = codes "planned";
        capabilities = [];
        reason = codes "ARMv7 hard-float dependency and runtime gates are not validated";
      },
    )
    ∷ (
      codes "linux-aarch64-gnu",
      record {
        target_id = codes "linux-aarch64-gnu";
        target_platform = codes "linux";
        target_arch = codes "aarch64";
        base_isa = codes "aarch64";
        aosp_arch = codes "arm64";
        target_abi = codes "gnu";
        object_format = codes "elf64";
        pointer_bits = 64;
        triple = codes "aarch64-unknown-linux-gnu";
        cmake_system_name = codes "Linux";
        status = codes "experimental";
        capabilities = native_capabilities;
        reason = [];
      },
    )
    ∷ (
      codes "linux-riscv64-gnu",
      record {
        target_id = codes "linux-riscv64-gnu";
        target_platform = codes "linux";
        target_arch = codes "riscv64";
        base_isa = codes "riscv64";
        aosp_arch = codes "riscv64";
        target_abi = codes "gnu";
        object_format = codes "elf64";
        pointer_bits = 64;
        triple = codes "riscv64-unknown-linux-gnu";
        cmake_system_name = codes "Linux";
        status = codes "planned";
        capabilities = [];
        reason = codes "RISC-V dependency and runtime policy are not validated";
      },
    )
    ∷ (
      codes "windows-x86-msvc",
      record {
        target_id = codes "windows-x86-msvc";
        target_platform = codes "windows";
        target_arch = codes "x86";
        base_isa = codes "x86";
        aosp_arch = codes "x86";
        target_abi = codes "msvc";
        object_format = codes "pe32";
        pointer_bits = 32;
        triple = codes "i686-pc-windows-msvc";
        cmake_system_name = codes "Windows";
        status = codes "planned";
        capabilities = [];
        reason = windows_placeholder_reason;
      },
    )
    ∷ (
      codes "windows-x86_64-msvc",
      record {
        target_id = codes "windows-x86_64-msvc";
        target_platform = codes "windows";
        target_arch = codes "x86_64";
        base_isa = codes "x86_64";
        aosp_arch = codes "x86_64";
        target_abi = codes "msvc";
        object_format = codes "pe32+";
        pointer_bits = 64;
        triple = codes "x86_64-pc-windows-msvc";
        cmake_system_name = codes "Windows";
        status = codes "experimental";
        capabilities =
            native_capabilities ++ (codes "seh" ∷ codes "jit" ∷ codes "windows_contracts" ∷ []);
        reason = [];
      },
    )
    ∷ (
      codes "windows-armv7-msvc",
      record {
        target_id = codes "windows-armv7-msvc";
        target_platform = codes "windows";
        target_arch = codes "armv7";
        base_isa = codes "armv7";
        aosp_arch = codes "arm";
        target_abi = codes "msvc";
        object_format = codes "pe32";
        pointer_bits = 32;
        triple = codes "armv7-pc-windows-msvc";
        cmake_system_name = codes "Windows";
        status = codes "planned";
        capabilities = [];
        reason = windows_placeholder_reason;
      },
    )
    ∷ (
      codes "windows-aarch64-msvc",
      record {
        target_id = codes "windows-aarch64-msvc";
        target_platform = codes "windows";
        target_arch = codes "aarch64";
        base_isa = codes "aarch64";
        aosp_arch = codes "arm64";
        target_abi = codes "msvc";
        object_format = codes "pe32+";
        pointer_bits = 64;
        triple = codes "aarch64-pc-windows-msvc";
        cmake_system_name = codes "Windows";
        status = codes "planned";
        capabilities = [];
        reason = codes "Windows AArch64 sources and ABI gates are not implemented";
      },
    )
    ∷ (
      codes "windows-arm64ec-msvc",
      record {
        target_id = codes "windows-arm64ec-msvc";
        target_platform = codes "windows";
        target_arch = codes "arm64ec";
        base_isa = codes "aarch64";
        aosp_arch = codes "arm64";
        target_abi = codes "msvc";
        object_format = codes "pe32+";
        pointer_bits = 64;
        triple = codes "arm64ec-pc-windows-msvc";
        cmake_system_name = codes "Windows";
        status = codes "planned";
        capabilities = [];
        reason =
            codes "ARM64EC source, macro, import/export, and runtime gates are not implemented";
      },
    )
    ∷ (
      codes "wasm-wasm32-posixshim",
      record {
        target_id = codes "wasm-wasm32-posixshim";
        target_platform = codes "wasm";
        target_arch = codes "wasm32";
        base_isa = codes "wasm32";
        aosp_arch = codes "wasm32";
        target_abi = codes "posixshim";
        object_format = codes "wasm";
        pointer_bits = 32;
        triple = codes "wasm32-unknown-unknown";
        cmake_system_name = codes "Generic";
        status = codes "impossible_under_current_art_contract";
        capabilities = [];
        reason = posixshim_art_reason;
      },
    )
    ∷ (
      codes "wasm-wasm64-posixshim",
      record {
        target_id = codes "wasm-wasm64-posixshim";
        target_platform = codes "wasm";
        target_arch = codes "wasm64";
        base_isa = codes "wasm64";
        aosp_arch = codes "wasm64";
        target_abi = codes "posixshim";
        object_format = codes "wasm";
        pointer_bits = 64;
        triple = codes "wasm64-unknown-unknown";
        cmake_system_name = codes "Generic";
        status = codes "impossible_under_current_art_contract";
        capabilities = [];
        reason = posixshim_art_reason;
      },
    )
    ∷ (
      codes "uefi-x86_64-posixshim",
      record {
        target_id = codes "uefi-x86_64-posixshim";
        target_platform = codes "uefi";
        target_arch = codes "x86_64";
        base_isa = codes "x86_64";
        aosp_arch = codes "x86_64";
        target_abi = codes "posixshim";
        object_format = codes "pe32+";
        pointer_bits = 64;
        triple = codes "x86_64-pc-windows-msvc";
        cmake_system_name = codes "Generic";
        status = codes "impossible_under_current_art_contract";
        capabilities = [];
        reason = uefi_art_reason;
      },
    )
    ∷ (
      codes "uefi-aarch64-posixshim",
      record {
        target_id = codes "uefi-aarch64-posixshim";
        target_platform = codes "uefi";
        target_arch = codes "aarch64";
        base_isa = codes "aarch64";
        aosp_arch = codes "arm64";
        target_abi = codes "posixshim";
        object_format = codes "pe32+";
        pointer_bits = 64;
        triple = codes "aarch64-pc-windows-msvc";
        cmake_system_name = codes "Generic";
        status = codes "impossible_under_current_art_contract";
        capabilities = [];
        reason = uefi_art_reason;
      },
    )
    ∷ (
      codes "uefi-riscv64-posixshim",
      record {
        target_id = codes "uefi-riscv64-posixshim";
        target_platform = codes "uefi";
        target_arch = codes "riscv64";
        base_isa = codes "riscv64";
        aosp_arch = codes "riscv64";
        target_abi = codes "posixshim";
        object_format = codes "pe32+";
        pointer_bits = 64;
        triple = codes "riscv64-pc-windows-msvc";
        cmake_system_name = codes "Generic";
        status = codes "impossible_under_current_art_contract";
        capabilities = [];
        reason =
            uefi_art_reason
            ++ codes
                "; Clang cannot currently emit RISC-V64 COFF and emits ELF for the accepted Windows triple";
      },
    )
    ∷ []

-- Identifiers that are often meant for a canonical one: _NON_CANONICAL_HINTS.
abbrev pub non_canonical_hints : Assoc (List Text)
non_canonical_hints =
    (codes "linux-x64", codes "linux-x86_64-gnu" ∷ [])
    ∷ (codes "linux_x86_64", codes "linux-x86_64-gnu" ∷ [])
    ∷ (codes "linux-x86_64", codes "linux-x86_64-gnu" ∷ [])
    ∷ (codes "linux-x86", codes "linux-x86-gnu" ∷ [])
    ∷ (codes "linux-arm", codes "linux-armv7-gnu" ∷ [])
    ∷ (codes "linux-armv7", codes "linux-armv7-gnu" ∷ [])
    ∷ (codes "linux-arm64", codes "linux-aarch64-gnu" ∷ [])
    ∷ (codes "linux-aarch64", codes "linux-aarch64-gnu" ∷ [])
    ∷ (codes "linux-riscv64", codes "linux-riscv64-gnu" ∷ [])
    ∷ (codes "windows-x64", codes "windows-x86_64-msvc" ∷ [])
    ∷ (codes "windows_x86_64", codes "windows-x86_64-msvc" ∷ [])
    ∷ (codes "windows-x86_64", codes "windows-x86_64-msvc" ∷ [])
    ∷ (codes "windows-x86", codes "windows-x86-msvc" ∷ [])
    ∷ (codes "windows-arm", codes "windows-armv7-msvc" ∷ [])
    ∷ (codes "windows-armv7", codes "windows-armv7-msvc" ∷ [])
    ∷ (codes "windows-arm64", codes "windows-aarch64-msvc" ∷ [])
    ∷ (codes "windows-aarch64", codes "windows-aarch64-msvc" ∷ [])
    ∷ (codes "windows-aarch64-arm64ec", codes "windows-arm64ec-msvc" ∷ [])
    ∷ (codes "windows-arm64ec", codes "windows-arm64ec-msvc" ∷ [])
    ∷ (codes "wasm-wasm32", codes "wasm-wasm32-posixshim" ∷ [])
    ∷ (codes "wasm-wasm64", codes "wasm-wasm64-posixshim" ∷ [])
    ∷ (codes "wasm32-posixshim", codes "wasm-wasm32-posixshim" ∷ [])
    ∷ (codes "wasm64-posixshim", codes "wasm-wasm64-posixshim" ∷ [])
    ∷ (codes "uefi-x86_64", codes "uefi-x86_64-posixshim" ∷ [])
    ∷ (codes "uefi-aarch64", codes "uefi-aarch64-posixshim" ∷ [])
    ∷ (codes "uefi-riscv64", codes "uefi-riscv64-posixshim" ∷ [])
    ∷ []

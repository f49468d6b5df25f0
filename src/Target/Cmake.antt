-- ===== src/Target/Cmake.antt =====
-- tools/bp2cmake/bp2cmake/target.py: `to_cmake`, a profile as a file of CMake settings.
use dalvikvm_multiplatform.Common.{
  ℕ, zero, suc, ◌+◌, if◌then◌else◌, ltb, [], ◌∷◌, ◌++◌, map, Text, codes, Assoc, join,
}
use Prim.Native.Nat.{◌/◌, ◌%◌}
use dalvikvm_multiplatform.Target.{TargetProfile, cmake_escape}
use dalvikvm_multiplatform.Target.Tables.{target_platforms, target_arches, target_abis}

-- `str(n)`, on as much fuel as `n` has digits.
unfoldable pub decimal : ℕ → ℕ → Text
decimal zero n = []
decimal (suc f) n =
    let rest = decimal f (n / 10) in
    if ltb n 10 then (b'0' + n) ∷ [] else rest ++ ((b'0' + n % 10) ∷ [])

-- The tuple `values`. `table` is TARGET_PROFILES, of which the names are joined.
unfoldable pub settings : Assoc TargetProfile → TargetProfile → Assoc Text
settings table p =
    (codes "ART_TARGET_ID", p.target_id)
    ∷ (codes "ART_TARGET_PLATFORM", p.target_platform)
    ∷ (codes "ART_TARGET_ARCH", p.target_arch)
    ∷ (codes "ART_TARGET_BASE_ISA", p.base_isa)
    ∷ (codes "ART_TARGET_AOSP_ARCH", p.aosp_arch)
    ∷ (codes "ART_TARGET_MTERP_SOURCE_DIR", p.mterp_source_dir)
    ∷ (codes "ART_TARGET_MTERP_OUTPUT", p.mterp_output)
    ∷ (codes "ART_TARGET_ABI", p.target_abi)
    ∷ (codes "ART_TARGET_OBJECT_FORMAT", p.object_format)
    ∷ (codes "ART_TARGET_LLVM_FILE_FORMAT", p.llvm_file_format)
    ∷ (codes "ART_TARGET_LLVM_ARCH", p.llvm_arch)
    ∷ (codes "ART_TARGET_POINTER_BITS", decimal (suc p.pointer_bits) p.pointer_bits)
    ∷ (codes "ART_TARGET_ENDIANNESS", p.endianness)
    ∷ (codes "ART_TARGET_TRIPLE", p.target_triple)
    ∷ (codes "ART_TARGET_CMAKE_SYSTEM_NAME", p.cmake_system_name)
    ∷ (codes "ART_TARGET_CMAKE_SYSTEM_PROCESSOR", p.cmake_system_processor)
    ∷ (codes "ART_TARGET_CAPABILITIES", join (codes ";") p.capabilities)
    ∷ (codes "ART_TARGET_SUPPORT_STATUS", p.support_status)
    ∷ (codes "ART_TARGET_ID_ENUM", join (codes ";") (map (λ kp. kp.0) table))
    ∷ (codes "ART_TARGET_PLATFORM_ENUM", join (codes ";") target_platforms)
    ∷ (codes "ART_TARGET_ARCH_ENUM", join (codes ";") target_arches)
    ∷ (codes "ART_TARGET_ABI_ENUM", join (codes ";") target_abis)
    ∷ []

-- `f'set({key} "{_cmake_escape(value)}")'`
unfoldable pub set_line : Text × Text → Text
set_line (key, value) =
    codes "set(" ++ (key ++ (codes " \"" ++ (cmake_escape value ++ codes "\")")))

unfoldable pub to_cmake : Assoc TargetProfile → TargetProfile → Text
to_cmake table p =
    join (codes "\n")
      (codes "# Generated target data. Do not edit." ∷ map set_line (settings table p))
    ++ codes "\n"

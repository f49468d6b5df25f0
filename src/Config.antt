-- ===== src/Config.antt =====
-- tools/bp2cmake/bp2cmake/config.py: the build configuration that selects are resolved against.
use dalvikvm_multiplatform.Common.{
  ℕ, Bool, true, none, some, List, [], ◌∷◌, ◌++◌, if◌then◌else◌, ◌==◌, text_eq, nat_eq, contains,
  Text, codes, Assoc, find,
}
use dalvikvm_multiplatform.Target.{TargetProfile, aosp_os}
use dalvikvm_multiplatform.Values.{Value, none_value, str, boolean}

pub record Config : Type 0 where
  pub os : Text
  pub arch : Text
  pub bitness : ℕ
  pub host : Bool
  pub avx2 : Bool

-- `Config.from_target`: `host` keeps its default.
unfoldable pub from_target : TargetProfile → Bool → Config
from_target target avx2 = record {
  os = aosp_os target;
  arch = target.aosp_arch;
  bitness = target.pointer_bits;
  host = true;
  avx2 = avx2;
}

-- `soong_config_value`: the one variable that is set, and the default.
unfoldable pub soong_config_value : Text → Bool
soong_config_value name = name == codes "source_build"

-- _SET_SOONG_CONFIG_VARS
abbrev pub set_soong_config_vars : List Text
set_soong_config_vars = []

-- `args[-1] if args else ""`
unfoldable pub last_or_empty : List Text → Text
last_or_empty [] = []
last_or_empty (a ∷ []) = a
last_or_empty (a ∷ b ∷ as_) = last_or_empty (b ∷ as_)

-- The dict in `codegen_arches`.
abbrev codegen_table : Assoc (List Text)
codegen_table =
    (codes "x86_64", codes "x86_64" ∷ codes "x86" ∷ [])
    ∷ (codes "x86", codes "x86" ∷ [])
    ∷ (codes "arm64", codes "arm64" ∷ codes "arm" ∷ [])
    ∷ (codes "arm", codes "arm" ∷ [])
    ∷ []

module _ (config : Config) where
  -- `select_condition_value`; `none_value` is an unset condition.
  unfoldable pub select_condition_value : Text → List Text → Value
  select_condition_value func args =
      if func == codes "os"
      then str config.os
      else if func == codes "arch"
      then str config.arch
      else if func == codes "soong_config_variable"
      then (if contains (last_or_empty args) set_soong_config_vars
          then boolean (soong_config_value (last_or_empty args))
          else none_value)
      else none_value

  unfoldable pub is_windows : Bool
  is_windows = config.os == codes "windows"

  unfoldable pub is_linux : Bool
  is_linux = contains config.os (codes "linux_glibc" ∷ codes "linux_musl" ∷ codes "linux" ∷ [])

  unfoldable pub codegen_arches : List Text
  codegen_arches = elim (find config.arch codegen_table) [
    | some as_ ↦ as_
    | none ↦ config.arch ∷ []
  ]

  -- `active_target_keys`: the Soong `target:` keys that apply.
  unfoldable pub active_target_keys : List Text
  active_target_keys =
      if is_windows
      then codes "host"
        ∷ codes "windows"
        ∷ codes "not_darwin"
        ∷ codes "not_fuchsia"
        ∷ (codes "windows_" ++ config.arch)
        ∷ []
      else codes "host"
        ∷ codes "host_linux"
        ∷ codes "linux"
        ∷ codes "linux_glibc"
        ∷ codes "glibc"
        ∷ codes "not_windows"
        ∷ codes "not_darwin"
        ∷ codes "not_fuchsia"
        ∷ (codes "linux_" ++ config.arch)
        ∷ (codes "linux_glibc_" ++ config.arch)
        ∷ (codes "glibc_" ++ config.arch)
        ∷ []

  unfoldable pub multilib_key : Text
  multilib_key = if config.bitness == 64 then codes "lib64" else codes "lib32"

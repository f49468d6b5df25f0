-- ===== src/Evaluator/Mapping.antt =====
-- tools/bp2cmake/bp2cmake/evaluator.py: `_to_module`, from a collapsed property map to a module.
use dalvikvm_multiplatform.Common.{
  Bool, true, false, ◌||◌, Option, some, List, [], ◌∷◌, ◌++◌, map, if◌then◌else◌, ◌==◌, text_eq,
  contains, has_char, before_char, Text, codes,
}
use dalvikvm_multiplatform.Values.{
  Value, Dict, str, boolean, list, empty, bind, get, set, to_list, value_beq,
}
use dalvikvm_multiplatform.Model.{Module, new_module}

-- _LIST_PROPS, less the two that `_to_module` handles before it asks.
abbrev pub list_props : List Text
list_props =
    codes "srcs"
    ∷ codes "exclude_srcs"
    ∷ codes "cflags"
    ∷ codes "cppflags"
    ∷ codes "conlyflags"
    ∷ codes "ldflags"
    ∷ codes "include_dirs"
    ∷ codes "local_include_dirs"
    ∷ codes "export_include_dirs"
    ∷ codes "shared_libs"
    ∷ codes "static_libs"
    ∷ codes "whole_static_libs"
    ∷ codes "header_libs"
    ∷ codes "generated_sources"
    ∷ codes "generated_headers"
    ∷ []

-- _DEP_LIST_PROPS, less the same two.
abbrev pub dep_list_props : List Text
dep_list_props =
    codes "shared_libs" ∷ codes "static_libs" ∷ codes "whole_static_libs" ∷ codes "header_libs" ∷ []

abbrev pub export_props : List Text
export_props = codes "export_header_lib_headers" ∷ codes "export_static_lib_headers" ∷ []

-- _IGNORED_PROPS
abbrev pub ignored_props : List Text
ignored_props =
    codes "vndk"
    ∷ codes "apex_available"
    ∷ codes "min_sdk_version"
    ∷ codes "sanitize"
    ∷ codes "stubs"
    ∷ codes "vendor_available"
    ∷ codes "product_available"
    ∷ codes "ramdisk_available"
    ∷ codes "vendor_ramdisk_available"
    ∷ codes "recovery_available"
    ∷ codes "native_bridge_supported"
    ∷ codes "host_supported"
    ∷ codes "device_supported"
    ∷ codes "sdk_version"
    ∷ codes "stl"
    ∷ codes "double_loadable"
    ∷ codes "llndk"
    ∷ codes "version_script"
    ∷ codes "afdo"
    ∷ codes "compile_multilib"
    ∷ codes "visibility"
    ∷ codes "license_kinds"
    ∷ codes "license_text"
    ∷ codes "default_applicable_licenses"
    ∷ codes "lto"
    ∷ codes "tidy"
    ∷ codes "tidy_checks"
    ∷ codes "tidy_flags"
    ∷ codes "pack_relocations"
    ∷ codes "product_variables"
    ∷ codes "ndk_headers"
    ∷ codes "system_shared_libs"
    ∷ codes "required"
    ∷ codes "recovery"
    ∷ codes "native_coverage"
    ∷ codes "use_version_lib"
    ∷ codes "static"
    ∷ codes "shared"
    ∷ codes "header_abi_checker"
    ∷ codes "name"
    ∷ codes "defaults"
    ∷ []

-- `_strip_dep_tag`
unfoldable pub strip_dep_tag : Value → Value
strip_dep_tag (str s) = str (if has_char b'#' s then before_char b'#' s else s)
strip_dep_tag v = v

-- `value if isinstance(value, list) else [value]`
unfoldable pub as_list : Value → List Value
as_list (list vs) = to_list vs
as_list v = v ∷ []

-- `getattr(m, key).extend(vals)`
unfoldable pub extend_field : Text → List Value → Module Value → Module Value
extend_field key vals m =
    if key == codes "srcs"
    then record m { srcs = m.srcs ++ vals }
    else if key == codes "exclude_srcs"
    then record m { exclude_srcs = m.exclude_srcs ++ vals }
    else if key == codes "cflags"
    then record m { cflags = m.cflags ++ vals }
    else if key == codes "cppflags"
    then record m { cppflags = m.cppflags ++ vals }
    else if key == codes "conlyflags"
    then record m { conlyflags = m.conlyflags ++ vals }
    else if key == codes "ldflags"
    then record m { ldflags = m.ldflags ++ vals }
    else if key == codes "include_dirs"
    then record m { include_dirs = m.include_dirs ++ vals }
    else if key == codes "local_include_dirs"
    then record m { local_include_dirs = m.local_include_dirs ++ vals }
    else if key == codes "export_include_dirs"
    then record m { export_include_dirs = m.export_include_dirs ++ vals }
    else if key == codes "shared_libs"
    then record m { shared_libs = m.shared_libs ++ vals }
    else if key == codes "static_libs"
    then record m { static_libs = m.static_libs ++ vals }
    else if key == codes "whole_static_libs"
    then record m { whole_static_libs = m.whole_static_libs ++ vals }
    else if key == codes "header_libs"
    then record m { header_libs = m.header_libs ++ vals }
    else if key == codes "generated_sources"
    then record m { generated_sources = m.generated_sources ++ vals }
    else if key == codes "generated_headers"
    then record m { generated_headers = m.generated_headers ++ vals }
    else m

-- `setattr(m, key, value)` for a language standard that is a text.
unfoldable pub set_standard : Text → Value → Module Value → Module Value
set_standard key (str s) m =
    if key == codes "cpp_std" then record m { cpp_std = some s } else record m { c_std = some s }
set_standard key v m = m

unfoldable pub exported_libs : Value → List Value
exported_libs (list vs) = map strip_dep_tag (to_list vs)
exported_libs v = []

-- `m`, and the list `extra_header_libs`.
abbrev pub Mapped : Type 0
Mapped = Module Value × List Value

-- The body of the loop over `props.items()`.
unfoldable pub map_prop : Text → Value → Mapped → Mapped
map_prop key value (m, libs) =
    if key == codes "enabled" || contains key ignored_props
    then (m, libs)
    else if key == codes "cpp_std" || key == codes "c_std"
    then (set_standard key value m, libs)
    else if contains key export_props
    then (m, libs ++ exported_libs value)
    else if contains key dep_list_props
    then (extend_field key (map strip_dep_tag (as_list value)) m, libs)
    else if contains key list_props
    then (extend_field key (as_list value) m, libs)
    else (record m { extra = set key value m.extra }, libs)

unfoldable pub map_props : Dict → Mapped → Mapped
map_props empty r = r
map_props (bind k v d) r = map_props d (map_prop k v r)

-- `v in vs`
unfoldable pub value_in : Value → List Value → Bool
value_in v [] = false
value_in v (w ∷ ws) = value_beq w v || value_in v ws

-- The last loop: the exported libraries that are not header libraries yet.
unfoldable pub add_missing : List Value → List Value → List Value
add_missing libs [] = libs
add_missing libs (v ∷ vs) = add_missing (if value_in v libs then libs else libs ++ (v ∷ [])) vs

-- `props.get("enabled") is False`
unfoldable pub is_disabled : Option Value → Bool
is_disabled (some (boolean false)) = true
is_disabled _ = false

unfoldable pub to_module : Text → Text → Text → Dict → Text → Module Value
to_module name type_ bp_dir props root_var =
    let m₀ = new_module {A = Value} name type_ bp_dir root_var in
    let m₁ =
      if is_disabled (get (codes "enabled") props) then record m₀ { enabled = false } else m₀ in
    let (m, libs) = map_props props (m₁, []) in
    record m { header_libs = add_missing m.header_libs libs }

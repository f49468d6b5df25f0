-- ===== src/Overlay.antt =====
-- tools/bp2cmake/bp2cmake/overlay.py: the policy of a port, and how it edits a module.
-- Loading a policy file runs Python code and is not here.
pub mod Edits
pub mod Roots
use dalvikvm_multiplatform.Common.{
  ℕ, zero, suc, Bool, true, false, not, ◌&&◌, ◌||◌, Option, none, some, List, [], ◌∷◌, ◌++◌,
  if◌then◌else◌, ◌==◌, ltb, length, text_eq, starts_with, contains, without, remove_all, dedupe,
  Text, codes, Assoc, find, Error, value_error, Result, ok, err,
}
use dalvikvm_multiplatform.Model.{Module}

-- A ModulePolicy: the fields that this file and the closure read, and those of the emitter.
pub record ModulePolicy : Type 0 where
  pub kind : Option Text
  pub absorb_whole_static : Bool
  pub add_srcs : List Text
  pub remove_srcs : List Text
  pub add_shared_libs : List Text
  pub remove_shared_libs : List Text
  pub add_static_libs : List Text
  pub remove_static_libs : List Text
  pub add_cflags : List Text
  pub add_cppflags : List Text
  pub add_conlyflags : List Text
  pub add_ldflags : List Text
  pub add_defines : List Text
  pub add_public_defines : List Text
  pub remove_cflags : List Text
  pub set_c_std : Option Text
  pub set_cpp_std : Option Text
  pub add_include_dirs : List Text
  pub add_compat_include_dirs : List Text
  pub add_gensrc_sources : List Text
  pub add_gensrc_includes : List Text
  pub skip : Bool
  pub force_enabled : Bool

-- `ModulePolicy()`
unfoldable pub default_policy : ModulePolicy
default_policy = record {
  kind = none;
  absorb_whole_static = true;
  add_srcs = [];
  remove_srcs = [];
  add_shared_libs = [];
  remove_shared_libs = [];
  add_static_libs = [];
  remove_static_libs = [];
  add_cflags = [];
  add_cppflags = [];
  add_conlyflags = [];
  add_ldflags = [];
  add_defines = [];
  add_public_defines = [];
  remove_cflags = [];
  set_c_std = none;
  set_cpp_std = none;
  add_include_dirs = [];
  add_compat_include_dirs = [];
  add_gensrc_sources = [];
  add_gensrc_includes = [];
  skip = false;
  force_enabled = false;
}

pub record BlueprintScanPolicy : Type 0 where
  pub excluded_path_components : List Text
  pub excluded_top_levels : Assoc (List Text)

-- `any(part in drop for part in parts)`
unfoldable pub any_in : List Text → List Text → Bool
any_in drop [] = false
any_in drop (p ∷ ps) = contains p drop || any_in drop ps

-- `BlueprintScanPolicy.excludes`: the loop, and the method.
unfoldable pub top_level_excluded : Assoc (List Text) → Text → Text → Bool
top_level_excluded [] root top = false
top_level_excluded ((variable, names) ∷ rest) root top =
    if variable == root then contains top names else top_level_excluded rest root top

unfoldable pub excludes : BlueprintScanPolicy → Text → List Text → Bool
excludes p root parts =
    if any_in p.excluded_path_components parts
    then true
    else elim parts [ [] ↦ false | part ∷ _ ↦ top_level_excluded p.excluded_top_levels root part ]

pub record GlobalPolicy : Type 0 where
  pub name_map : Assoc Text
  pub host_libs : List Text
  pub drop_cflags : List Text
  pub drop_cppflags : List Text
  pub art_defines : List Text
  pub drop_ldflags : List Text
  pub drop_ldflags_containing : List Text
  pub add_ldflags : List Text
  pub strip_lib_prefix : Bool

-- An Overlay, as its `__init__` fills it before `__post_init__` runs.
pub record Overlay : Type 0 where
  pub global_policy : GlobalPolicy
  pub modules : Assoc ModulePolicy
  pub blueprint_scan : BlueprintScanPolicy
  pub product_root_modules : List Text

-- `any(not name for name in roots)`; the types are those of the record.
unfoldable pub any_empty : List Text → Bool
any_empty [] = false
any_empty ([] ∷ rs) = true
any_empty ((c ∷ s) ∷ rs) = any_empty rs

-- `__post_init__`
unfoldable pub checked : Overlay → Result Overlay
checked ov =
    if any_empty ov.product_root_modules
    then err value_error
    else if ltb (length (dedupe ov.product_root_modules)) (length ov.product_root_modules)
    then err value_error
    else ok ov

unfoldable pub policy_for : Overlay → Text → ModulePolicy
policy_for ov name = elim (find name ov.modules) [ none ↦ default_policy | some p ↦ p ]

-- `n[k:]`
unfoldable pub drop_chars : ℕ → Text → Text
drop_chars zero n = n
drop_chars (suc k) [] = []
drop_chars (suc k) (c ∷ n) = drop_chars k n

unfoldable pub strip_lib : Text → Text
strip_lib n = if starts_with n (codes "lib") && ltb 3 (length n) then drop_chars 3 n else n

unfoldable pub target_name : Overlay → Text → Text
target_name ov aosp_name = elim (find aosp_name ov.global_policy.name_map) [
  | some n ↦ n
  | none ↦ if ov.global_policy.strip_lib_prefix then strip_lib aosp_name else aosp_name
]

-- `for a in drop: while a in xs: xs.remove(a)`
unfoldable pub remove_each : List Text → List Text → List Text
remove_each [] xs = xs
remove_each (a ∷ drop) xs = remove_each drop (remove_all a xs)

-- `xs.extend(a for a in new if a not in xs)`: the generator reads `xs` as `extend` fills it.
unfoldable pub extend_new : List Text → List Text → List Text
extend_new xs [] = xs
extend_new xs (a ∷ new) = extend_new (if contains a xs then xs else xs ++ (a ∷ [])) new

-- `sub in f`
unfoldable pub has_sub : Text → Text → Bool
has_sub sub [] = starts_with [] sub
has_sub sub (c ∷ f) = starts_with (c ∷ f) sub || has_sub sub f

-- `any(sub in f for sub in subs)`
unfoldable pub has_any_sub : List Text → Text → Bool
has_any_sub [] f = false
has_any_sub (sub ∷ subs) f = has_sub sub f || has_any_sub subs f

-- `[f for f in xs if not any(sub in f for sub in subs)]`
unfoldable pub without_subs : List Text → List Text → List Text
without_subs subs [] = []
without_subs subs (f ∷ xs) =
    if has_any_sub subs f then without_subs subs xs else f ∷ without_subs subs xs

-- The edits of `ldflags` together.
unfoldable pub edit_ldflags : ModulePolicy → GlobalPolicy → List Text → List Text
edit_ldflags pol glob flags = dedupe (
    without_subs glob.drop_ldflags_containing
      (remove_each glob.drop_ldflags ((flags ++ pol.add_ldflags) ++ glob.add_ldflags)))

-- `if new is not None: ... = new`
unfoldable pub set_if : Option Text → Option Text → Option Text
set_if none old = old
set_if (some s) old = some s

unfoldable pub apply_module_policy : Module Text → ModulePolicy → GlobalPolicy → Module Text
apply_module_policy m pol glob = record m {
  enabled = pol.force_enabled || m.enabled;
  srcs = extend_new (remove_each pol.remove_srcs m.srcs) pol.add_srcs;
  shared_libs = extend_new (remove_each pol.remove_shared_libs m.shared_libs) pol.add_shared_libs;
  static_libs = extend_new (remove_each pol.remove_static_libs m.static_libs) pol.add_static_libs;
  cflags = remove_each glob.drop_cflags (m.cflags ++ pol.add_cflags);
  cppflags = remove_each glob.drop_cppflags (m.cppflags ++ pol.add_cppflags);
  conlyflags = m.conlyflags ++ pol.add_conlyflags;
  ldflags = edit_ldflags pol glob m.ldflags;
  c_std = set_if pol.set_c_std m.c_std;
  cpp_std = set_if pol.set_cpp_std m.cpp_std;
}

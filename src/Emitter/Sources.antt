-- ===== src/Emitter/Sources.antt =====
-- tools/bp2cmake/bp2cmake/emitter.py: the sources, include directories and libraries of a target.
pub mod Linked
use dalvikvm_multiplatform.Common.{
  ℕ, Bool, true, false, not, ◌&&◌, ◌||◌, Option, none, some, List, [], ◌∷◌, ◌++◌, map,
  if◌then◌else◌, ◌==◌, text_eq, contains, without, dedupe, Text, Assoc, codes, joined, join,
  basename, ends_with, is_blank, starts_with, Result, ok, err, ◌>>=◌,
}
use dalvikvm_multiplatform.Model.{Module, effective_srcs}
use dalvikvm_multiplatform.Overlay.{Overlay, policy_for, apply_module_policy, target_name}
use dalvikvm_multiplatform.Emitter.Resolver.{Resolver}
use dalvikvm_multiplatform.Emitter.Includes.{join_path, root_ref, includes_of}
use dalvikvm_multiplatform.Emitter.Files.{module_files, absorbed_modules, is_reference}

-- `pol.kind`, or else the default of the type.
unfoldable pub default_kind : Text → Text
default_kind t =
    if contains t (codes "cc_binary" ∷ codes "cc_binary_host" ∷ codes "art_cc_binary" ∷ [])
    then codes "executable"
    else if contains t (codes "cc_library_static" ∷ codes "art_cc_library_static" ∷ [])
    then codes "static"
    else codes "shared"

unfoldable pub policy_kind : Option Text → Text → Text
policy_kind none t = default_kind t
policy_kind (some []) t = default_kind t
policy_kind (some (c ∷ kind)) t = c ∷ kind

-- `_kind`
unfoldable pub kind_of : Overlay → Module Text → Text
kind_of ov m = policy_kind (policy_for ov m.name).kind m.module_type

-- `any(s.endswith("/" + b) or s.endswith(b) for b in ban)`
unfoldable pub ends_with_any : List Text → Text → Bool
ends_with_any [] s = false
ends_with_any (b ∷ ban) s = (ends_with s (codes "/" ++ b) || ends_with s b) || ends_with_any ban s

-- The sources without those that `remove_srcs` bans; all of them where it is empty.
unfoldable pub without_banned : List Text → List Text → List Text
without_banned ban [] = []
without_banned ban (s ∷ srcs) =
    if not (contains (basename s) ban) && not (ends_with_any ban s)
    then s ∷ without_banned ban srcs
    else without_banned ban srcs

-- `d in (".", "")`, and a directory below another one.
unfoldable pub below : Text → Text → Text
below base d = if contains d (codes "." ∷ [] ∷ []) then base else base ++ (codes "/" ++ d)

-- _SRC, _COMPAT, _GENSRC and _BP2CMAKE
abbrev pub src_ref : Text
src_ref = codes "${MDVM_NATIVE_SRC_ROOT_DIR}"

abbrev pub compat_ref : Text
compat_ref = codes "${MDVM_COMPAT_INCLUDE_DIR}"

abbrev pub gensrc_ref : Text
gensrc_ref = codes "${MDVM_GENSRC_DIR}"

abbrev pub bp2cmake_ref : Text
bp2cmake_ref = codes "${MDVM_BP2CMAKE}"

-- The names in `skip` of `_link_libs`.
unfoldable pub skipped_libs : Bool → List (Module Text) → List Text → List Text
skipped_libs false absorbed whole = []
skipped_libs true absorbed whole = map (λ d. d.name) absorbed ++ whole

-- `set_source_files_properties` for the files of an absorbed module, or no block.
unfoldable pub props_block : List Text → List Text → List Text
props_block [] files = []
props_block (opt ∷ opts) [] = []
props_block (opt ∷ opts) (file ∷ files) =
    join (codes "\n") (
      codes "set_source_files_properties("
      ∷ (map (λ f. codes "        " ++ f) (file ∷ files)
          ++ (joined (
                codes "        PROPERTIES COMPILE_OPTIONS \""
                ∷ join (codes ";") (opt ∷ opts)
                ∷ codes "\")"
                ∷ [])
              ∷ [])))
    ∷ []

-- `[s for s in srcs if not s.startswith(":")]`
unfoldable pub plain_sources : List Text → List Text
plain_sources [] = []
plain_sources (s ∷ srcs) = if is_reference s then plain_sources srcs else s ∷ plain_sources srcs

module _ (ov : Overlay) where
  -- `apply_module_policy(dep, self.ov.policy_for(dep.name), self.ov.global_policy)`
  unfoldable pub with_policy : Module Text → Module Text
  with_policy m = apply_module_policy m (policy_for ov m.name) ov.global_policy

  -- The loop of `_absorbed_source_props` over the absorbed modules.
  unfoldable pub source_props : List (Module Text) → List Text
  source_props [] = []
  source_props (dep ∷ deps) =
      let dep2 = with_policy dep in
      props_block (without ov.global_policy.drop_cflags dep.cflags)
        (map (λ s. join_path dep2.bp_dir s dep2.root_var) (plain_sources (effective_srcs dep2)))
      ++ source_props deps

  -- The loop of `_link_libs`.
  unfoldable pub linked_targets : List Text → List Text → List Text
  linked_targets skip [] = []
  linked_targets skip (lib ∷ libs) =
      if contains lib skip
      then linked_targets skip libs
      else target_name ov lib ∷ linked_targets skip libs

module _ (ev : Resolver) (ov : Overlay) (f : ℕ) where
  -- `self._absorbed_modules(m)`, where the policy asks for it.
  unfoldable pub absorbed_by : Module Text → Result (List (Module Text))
  absorbed_by m =
      if (policy_for ov m.name).absorb_whole_static then absorbed_modules ev f m else ok []

  -- The files of the absorbed modules under their own policies.
  unfoldable pub absorbed_files : List (Module Text) → Result (List Text)
  absorbed_files [] = ok []
  absorbed_files (dep ∷ deps) = do
    files ← module_files ev f (with_policy ov dep)
    rest ← absorbed_files deps
    ok (files ++ rest)

  -- `_sources`
  unfoldable pub sources : Module Text → Result (List Text)
  sources m = do
    own ← module_files ev f m
    deps ← absorbed_by m
    files ← absorbed_files deps
    let pol = policy_for ov m.name
    ok (
        dedupe (
          without_banned pol.remove_srcs (own ++ files)
          ++ map (λ s. join_path m.bp_dir s m.root_var) pol.add_srcs))

  -- `_absorbed_source_props`
  unfoldable pub absorbed_source_props : Module Text → Result (List Text)
  absorbed_source_props m = do deps ← absorbed_by m; ok (source_props ov deps)

  -- `_include_dirs`, with the cache before and after.
  unfoldable pub include_dirs_of :
      Module Text → Assoc (List Text) → Result (List Text × Assoc (List Text))
  include_dirs_of m cache = do
    (header_dirs, cache₁) ← includes_of ev f m.header_libs cache
    (link_dirs, cache₂) ←
        includes_of ev f (m.whole_static_libs ++ m.shared_libs ++ m.static_libs) cache₁
    let pol = policy_for ov m.name
    ok (
      dedupe (
          map (λ d. join_path m.bp_dir d m.root_var) (m.export_include_dirs ++ m.local_include_dirs)
          ++ (map (λ d. joined (root_ref m.root_var ∷ codes "/" ∷ d ∷ [])) m.include_dirs
              ++ (header_dirs
                  ++ (link_dirs
                      ++ (map (λ d. joined (src_ref ∷ codes "/" ∷ d ∷ [])) pol.add_include_dirs
                          ++ (map (below compat_ref) pol.add_compat_include_dirs
                              ++ map (below gensrc_ref) pol.add_gensrc_includes)))))),
      cache₂,
    )

  -- `_link_libs`
  unfoldable pub link_libs : Module Text → Result (List Text)
  link_libs m = do
    deps ← absorbed_by m
    let skip = skipped_libs (policy_for ov m.name).absorb_whole_static deps m.whole_static_libs
    ok (dedupe (linked_targets ov skip (m.shared_libs ++ m.static_libs)))

-- ===== src/Tests/Emitted.antt =====
-- Inputs of tools/bp2cmake/bp2cmake/emitter.py: a library that absorbs another and takes a header
-- library, with a group of files that refers to itself.
use dalvikvm_multiplatform.Common.{
  join, starts_with, ◌++◌, text_beq, find, contains, ℕ, true, false, Option, none, some, List, [],
  ◌∷◌, if◌then◌else◌, ◌==◌, Bool-cases, ◌⊎◌, inl, inr, All, text_eq, dedupe, dedupe_from, IsNodup,
  Text, codes, has_char, ◌≡◌, ◌↔◌, refl, sym, ap, ◌∙◌, arith, eval_error, unknown_module,
  unknown_gensrcs, Result, ok, err, Ends, ok-injective,
}
use dalvikvm_multiplatform.Model.{Module, new_module}
use dalvikvm_multiplatform.Overlay.{
  Overlay, default_policy, policy_for, target_name, strip_lib, drop_chars,
}
use dalvikvm_multiplatform.Closure.{caught}
use dalvikvm_multiplatform.Closure.Reach.{IsResolveFailure}
use dalvikvm_multiplatform.Target.ReadBack.{read_value}
use dalvikvm_multiplatform.Emitter.Resolver.{Resolver}
use dalvikvm_multiplatform.Emitter.Includes.{exported_includes}
use dalvikvm_multiplatform.Emitter.Includes.Cache.{
  Exports, IsCoherent, IsRanked, exported_includes-Exports,
}
use dalvikvm_multiplatform.Emitter.Files.{
  Raw, absorbed_modules, absorbed_loop, absorb, raw_sources, module_files,
}
use dalvikvm_multiplatform.Emitter.Files.Absorbed.{
  IsNamed, Absorbs, budget, absorbed_modules-Absorbs,
}
use dalvikvm_multiplatform.Emitter.Files.References.{
  Stands, IsContainerFailure, Keeps, raw_sources-Stands, module_files-Keeps,
}
use dalvikvm_multiplatform.Emitter.Sources.{absorbed_by, link_libs, linked_targets, skipped_libs}
use dalvikvm_multiplatform.Emitter.Sources.Linked.{is_inlined, link_libs-Linked}
use dalvikvm_multiplatform.Emitter.Output.Macros.{IsMacro, IsObject, target_lines-Defines}
use dalvikvm_multiplatform.Emitter.Output.{Target, target_lines, in_art, quote_define, needs_quotes}
use dalvikvm_multiplatform.Emitter.Output.Defines.{quote_define-read_value}

abbrev blank_base : Module Text
blank_base = new_module (codes "base") (codes "cc_library") (codes "art") (codes "ROOT")

abbrev base : Module Text
base = record blank_base { srcs = codes "b.cc" ∷ []; header_libs = codes "hdr" ∷ [] }

abbrev blank_hdr : Module Text
blank_hdr = new_module (codes "hdr") (codes "cc_library_headers") (codes "hdr") (codes "ROOT")

abbrev hdr : Module Text
hdr = record blank_hdr { export_include_dirs = codes "include" ∷ [] }

abbrev blank_app : Module Text
blank_app = new_module (codes "app") (codes "cc_binary") (codes "art") (codes "ROOT")

abbrev app : Module Text
app = record blank_app {
  srcs = codes ":files" ∷ codes "a.cc" ∷ [];
  whole_static_libs = codes "base" ∷ codes "missing" ∷ [];
  shared_libs = codes "base" ∷ codes "libz" ∷ [];
}

resolved : Text → Result (Module Text)
resolved name =
    if codes "base" == name
    then ok base
    else if codes "hdr" == name
    then ok hdr
    else err (eval_error (unknown_module name))

container : Text → Result (Option (List Text × Text × Text))
container name =
    if codes "files" == name
    then ok (some (codes ":files" ∷ codes "f.cc" ∷ [], codes "art", codes "ROOT"))
    else ok none

abbrev sample : Resolver
sample = record {
  resolved = resolved;
  source_container = container;
  gensrcs = λ name. err (eval_error (unknown_gensrcs name));
  tool = λ name. ok none;
  root_paths = [];
  glob = λ root bp_dir pattern. [];
  repr = λ s. s;
}

abbrev overlay : Overlay
overlay = record {
  global_policy = record {
    name_map = [];
    host_libs = [];
    drop_cflags = [];
    drop_cppflags = [];
    art_defines = codes "ART" ∷ [];
    drop_ldflags = [];
    drop_ldflags_containing = [];
    add_ldflags = [];
    strip_lib_prefix = true;
  };
  modules = [];
  blueprint_scan = record { excluded_path_components = []; excluded_top_levels = [] };
  product_root_modules = [];
}

resolved-cases :
    (n : Text) (m : Module Text)
    → resolved n ≡ ok m
    → ((codes "base" ≡ n) × (base ≡ m)) ⊎ ((codes "hdr" ≡ n) × (hdr ≡ m))
unfolding resolved
resolved-cases n m e = elim (Bool-cases (codes "base" == n)) [
  | inl same ↦ inl ((text_eq.beq_iff (codes "base") n).0 same, ok-injective (rw same at e))
  | inr other ↦ elim (Bool-cases (codes "hdr" == n)) [
    | inl same ↦
        inr ((text_eq.beq_iff (codes "hdr") n).0 same, ok-injective (rw (other, same) at e))
    | inr missing ↦ let gone = rw (other, missing) at e in cc
  ]
]

sample-IsNamed : IsNamed sample
unfolding new_module
sample-IsNamed n m e = elim (resolved-cases n m e) [
  | inl (k, b) ↦ sym (ap (λ x. x.name) b) ∙ k
  | inr (k, b) ↦ sym (ap (λ x. x.name) b) ∙ k
]

abbrev known : List Text
known = codes "base" ∷ codes "hdr" ∷ []

sample_known : (n : Text) (m : Module Text) → resolved n ≡ ok m → contains n known ≡ true
unfolding resolved contains
sample_known n m e = ground arith

absorbed_modules-Absorbs_example :
    Ends (IsResolveFailure resolved) (Absorbs sample app) (absorbed_modules sample 4 app)
unfolding budget new_module resolved text_beq contains
absorbed_modules-Absorbs_example =
    absorbed_modules-Absorbs sample sample-IsNamed known sample_known 4 app (omega arith)

sample_absorbed : absorbed_modules sample 4 app ≡ ok (base ∷ [])
unfolding absorbed_modules absorbed_loop absorb caught resolved new_module text_beq contains
sample_absorbed = refl

abbrev rank : Text → ℕ
rank n = if codes "hdr" == n then 0 else 1

sample-IsRanked : IsRanked sample rank
unfolding new_module contains text_beq
sample-IsRanked n d m e h = elim (resolved-cases n m e) [
  | inl (k, b) ↦
      rw (sym k) (let h' = ap (λ x. contains d x.header_libs) b ∙ h in ground (arith, h'))
  | inr (k, b) ↦ let h' = ap (λ x. contains d x.header_libs) b ∙ h in cc
]

exported_includes-Exports_example :
    Ends
      (IsResolveFailure resolved)
      (λ out. Exports sample (codes "base") out.0 × IsCoherent sample out.1)
      (exported_includes sample 2 (codes "base") [])
unfolding find text_beq
exported_includes-Exports_example =
    exported_includes-Exports sample rank sample-IsRanked 2 (codes "base") [] (omega arith)
      (λ n dirs h. cc)

sample_containers :
    (n : Text) (c : List Text × Text × Text)
    → container n ≡ ok (some c)
    → contains n (codes "files" ∷ []) ≡ true
unfolding container contains
sample_containers n c e = ground arith

raw_sources-Stands_example :
    Ends
      (IsContainerFailure sample)
      (All (λ (raw : Raw).
        (s : Text) × (contains s app.srcs ≡ true)
        × Stands sample (codes "art") s (codes "ROOT") raw))
      (raw_sources sample 2 (codes "art") (codes "ROOT") app.srcs)
raw_sources-Stands_example =
    raw_sources-Stands sample (codes "files" ∷ []) sample_containers 2 (codes "art") (codes "ROOT")
      app.srcs (omega arith)

module_files-Keeps_example :
    Ends (IsContainerFailure sample) (Keeps sample 2 app) (module_files sample 2 app)
module_files-Keeps_example =
    module_files-Keeps sample (codes "files" ∷ []) sample_containers 2 app (omega arith)

sample-link_libs : link_libs sample overlay 4 app ≡ ok (codes "z" ∷ [])
unfolding link_libs absorbed_by absorbed_modules absorbed_loop absorb caught resolved new_module
    text_beq contains policy_for default_policy find skipped_libs linked_targets target_name
    strip_lib drop_chars starts_with dedupe dedupe_from
sample-link_libs = refl

link_libs-Linked_example :
    (deps : List (Module Text)) × (absorbed_by sample overlay 4 app ≡ ok deps)
    × IsNodup (codes "z" ∷ [])
    × ((t : Text)
        → (contains t (codes "z" ∷ []) ≡ true) ↔ (
            (lib : Text) × (contains lib (app.shared_libs ++ app.static_libs) ≡ true)
            × (is_inlined sample overlay 4 app deps lib ≡ false)
            × (target_name overlay lib ≡ t)))
link_libs-Linked_example = link_libs-Linked sample overlay 4 app (codes "z" ∷ []) sample-link_libs

abbrev app_target : Target
app_target = record {
  edited = app;
  srcs = codes "a.cc" ∷ [];
  gen_blocks = [];
  includes = [];
  link = [];
  props = [];
}

target_lines-Defines_example :
    (IsMacro (codes "ART")
      → contains
          (codes "        PRIVATE \"SHELL:-D" ++ (codes "ART" ++ codes "\""))
          (target_lines overlay app_target)
        ≡ true)
    × (IsObject (codes "ART")
        → (flags : List Text) × (contains (quote_define (codes "ART")) flags ≡ true)
          × (contains
                (codes "        PRIVATE " ++ join (codes " ") flags)
                (target_lines overlay app_target)
              ≡ true))
unfolding contains in_art text_beq starts_with policy_for default_policy find new_module
target_lines-Defines_example = target_lines-Defines overlay app_target (codes "ART") refl

abbrev delta : Text
delta = codes "D=(-\"1\")"

quote_define-read_value_example :
    (s : Text) × (quote_define delta ++ codes " E" ≡ b'"' ∷ s)
    × (read_value s ≡ some (delta, codes " E"))
unfolding has_char needs_quotes
quote_define-read_value_example = quote_define-read_value delta (codes " E") refl refl refl

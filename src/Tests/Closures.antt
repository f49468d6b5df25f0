-- ===== src/Tests/Closures.antt =====
-- A small graph for tools/bp2cmake/bp2cmake/closure.py: a program, its library, and a host library.
use dalvikvm_multiplatform.Common.{
  ◌≡◌, refl, true, [], ◌∷◌, ◌==◌, if◌then◌else◌, Text, codes, text_eq, text_beq, contains, find,
  store, without, eval_error, unknown_module, Result, ok, err, Ends, arith,
}
use dalvikvm_multiplatform.Model.{Module, new_module, effective_srcs, effective_loop}
use dalvikvm_multiplatform.Overlay.{Overlay, default_policy, policy_for}
use dalvikvm_multiplatform.Closure.{
  effective_link_deps, linked_libs, edited, is_empty, is_buildable, marked, marked_of, enter, leave,
  caught, visit_all, visit_links, visit_absorbed, visit_module, visit, dependency_closure,
}
use dalvikvm_multiplatform.Closure.Reach.{IsEmitted, IsResolveFailure, DepsFirst}
use dalvikvm_multiplatform.Closure.Exact.{
  Closes, dependency_closure-Closes, dependency_closure-DepsFirst,
}

abbrev blank_app : Module Text
blank_app = new_module (codes "app") (codes "cc_binary") [] (codes "ROOT")

abbrev app : Module Text
app = record blank_app { srcs = codes "a.cc" ∷ []; shared_libs = codes "libz" ∷ codes "base" ∷ [] }

abbrev blank_base : Module Text
blank_base = new_module (codes "base") (codes "cc_library") [] (codes "ROOT")

abbrev base : Module Text
base = record blank_base {
  srcs = codes "b.cc" ∷ [];
  shared_libs = codes "app" ∷ codes "missing" ∷ [];
}

abbrev overlay : Overlay
overlay = record {
  global_policy = record {
    name_map = [];
    host_libs = codes "libz" ∷ [];
    drop_cflags = [];
    drop_cppflags = [];
    art_defines = [];
    drop_ldflags = [];
    drop_ldflags_containing = [];
    add_ldflags = [];
    strip_lib_prefix = true;
  };
  modules = [];
  blueprint_scan = record { excluded_path_components = []; excluded_top_levels = [] };
  product_root_modules = [];
}

resolved : Text → Result (Module Text)
resolved name =
    if codes "app" == name
    then ok app
    else if codes "base" == name
    then ok base
    else err (eval_error (unknown_module name))

sample_closure :
    dependency_closure overlay resolved 3 (codes "app" ∷ []) ≡ ok (codes "base" ∷ codes "app" ∷ [])
unfolding dependency_closure visit visit_all visit_module visit_absorbed visit_links caught marked
    marked_of enter leave is_buildable is_empty effective_link_deps linked_libs edited
    effective_srcs effective_loop policy_for default_policy without contains text_beq find store
    resolved new_module
sample_closure = refl

resolved_names :
    (name : Text)
    → IsEmitted overlay resolved name
    → contains name (codes "app" ∷ codes "base" ∷ []) ≡ true
unfolding resolved contains
resolved_names name (g, (m, r, b)) = ground arith

dependency_closure-Closes_example :
    Ends
      (IsResolveFailure resolved)
      (Closes overlay resolved (codes "app" ∷ []))
      (dependency_closure overlay resolved 3 (codes "app" ∷ []))
dependency_closure-Closes_example =
    dependency_closure-Closes overlay resolved (codes "app" ∷ []) (codes "app" ∷ codes "base" ∷ [])
      resolved_names 3 (omega arith)

dependency_closure-DepsFirst_example :
    Ends
      (IsResolveFailure resolved)
      (DepsFirst overlay resolved [])
      (dependency_closure overlay resolved 3 (codes "app" ∷ []))
dependency_closure-DepsFirst_example =
    dependency_closure-DepsFirst overlay resolved (codes "app" ∷ [])
      (codes "app" ∷ codes "base" ∷ []) resolved_names 3 (omega arith)

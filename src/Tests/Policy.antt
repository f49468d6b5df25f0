-- ===== src/Tests/Policy.antt =====
-- Inputs of tools/bp2cmake/bp2cmake/{overlay,model}.py.
use dalvikvm_multiplatform.Common.{
  ◌≡◌, not, ◌&&◌, ◌||◌, true, [], ◌∷◌, Text, codes, text_eq, contains, IsNodup,
}
use dalvikvm_multiplatform.Model.{Module, new_module}
use dalvikvm_multiplatform.Overlay.{
  Overlay, ModulePolicy, default_policy, GlobalPolicy, has_any_sub, apply_module_policy,
}
use dalvikvm_multiplatform.Overlay.Edits.{apply_module_policy-adds, apply_module_policy-ldflags}

abbrev blank_app : Module Text
blank_app = new_module (codes "app") (codes "cc_binary") [] (codes "ROOT")

abbrev app : Module Text
app = record blank_app {
  srcs = codes "a.cc" ∷ codes "b.cc" ∷ codes "a.cc" ∷ [];
  exclude_srcs = codes "b.cc" ∷ [];
  ldflags = codes "-Wl,-rpath,/x" ∷ codes "-s" ∷ codes "-s" ∷ [];
}

abbrev policy : ModulePolicy
policy = record default_policy {
  add_srcs = codes "c.cc" ∷ codes "a.cc" ∷ [];
  remove_srcs = codes "a.cc" ∷ [];
}

abbrev glob : GlobalPolicy
glob = record {
  name_map = [];
  host_libs = [];
  drop_cflags = [];
  drop_cppflags = [];
  art_defines = [];
  drop_ldflags = [];
  drop_ldflags_containing = codes "rpath" ∷ [];
  add_ldflags = codes "-s" ∷ [];
  strip_lib_prefix = true;
}

apply_module_policy-adds_example :
    let m = apply_module_policy app policy glob in
    (contains (codes "a.cc") m.srcs ≡ (
      contains (codes "a.cc") app.srcs && not (contains (codes "a.cc") policy.remove_srcs)
      || contains (codes "a.cc") policy.add_srcs))
    × (contains (codes "a.cc") m.shared_libs ≡ (
        contains (codes "a.cc") app.shared_libs
          && not (contains (codes "a.cc") policy.remove_shared_libs)
        || contains (codes "a.cc") policy.add_shared_libs))
    × (contains (codes "a.cc") m.static_libs ≡ (
        contains (codes "a.cc") app.static_libs
          && not (contains (codes "a.cc") policy.remove_static_libs)
        || contains (codes "a.cc") policy.add_static_libs))
apply_module_policy-adds_example = apply_module_policy-adds app policy glob (codes "a.cc")

apply_module_policy-ldflags_example :
    let flags = (apply_module_policy app policy glob).ldflags in
    IsNodup flags
    × ((a : Text)
        → contains a flags ≡ (
            ((contains a app.ldflags || contains a policy.add_ldflags)
              || contains a glob.add_ldflags)
            && not (contains a glob.drop_ldflags)
            && not (has_any_sub glob.drop_ldflags_containing a)))
apply_module_policy-ldflags_example = apply_module_policy-ldflags app policy glob

abbrev two_roots : Overlay
two_roots = record {
  global_policy = glob;
  modules = [];
  blueprint_scan = record { excluded_path_components = []; excluded_top_levels = [] };
  product_root_modules = codes "dalvikvm" ∷ codes "libart" ∷ [];
}

-- ===== src/Model.antt =====
-- tools/bp2cmake/bp2cmake/model.py: a resolved module. Its lists hold what the Blueprint file gave:
-- any values in `Module Value`, as the evaluator makes it, and texts in `Module Text`, which the
-- later layers take.
pub mod Sources
use dalvikvm_multiplatform.Common.{
  Bool, true, ◌||◌, Option, none, List, [], ◌∷◌, if◌then◌else◌, text_eq, contains, Text, Assoc,
  store, type_error, Result, ok, err, ◌>>=◌, map_result,
}
use dalvikvm_multiplatform.Values.{Value, Dict, str, empty}

pub record Module (A : Type 0) : Type 0 where
  pub name : Text
  pub module_type : Text
  pub bp_dir : Text
  pub root_var : Text
  pub srcs : List A
  pub exclude_srcs : List A
  pub cflags : List A
  pub cppflags : List A
  pub conlyflags : List A
  pub ldflags : List A
  pub include_dirs : List A
  pub local_include_dirs : List A
  pub export_include_dirs : List A
  pub shared_libs : List A
  pub static_libs : List A
  pub whole_static_libs : List A
  pub header_libs : List A
  pub generated_sources : List A
  pub generated_headers : List A
  pub cpp_std : Option Text
  pub c_std : Option Text
  pub enabled : Bool
  pub extra : Dict

-- `Module(name=..., type=..., bp_dir=..., root_var=...)`, the other fields at their defaults.
unfoldable pub new_module : {A : Type 0} → Text → Text → Text → Text → Module A
new_module name module_type bp_dir root_var = record {
  name = name;
  module_type = module_type;
  bp_dir = bp_dir;
  root_var = root_var;
  srcs = [];
  exclude_srcs = [];
  cflags = [];
  cppflags = [];
  conlyflags = [];
  ldflags = [];
  include_dirs = [];
  local_include_dirs = [];
  export_include_dirs = [];
  shared_libs = [];
  static_libs = [];
  whole_static_libs = [];
  header_libs = [];
  generated_sources = [];
  generated_headers = [];
  cpp_std = none;
  c_std = none;
  enabled = true;
  extra = empty;
}

-- The loop of `effective_srcs`.
unfoldable pub effective_loop : List Text → List Text → List Text → List Text
effective_loop excluded seen [] = []
effective_loop excluded seen (s ∷ ss) =
    if contains s excluded || contains s seen
    then effective_loop excluded seen ss
    else s ∷ effective_loop excluded (s ∷ seen) ss

unfoldable pub effective_srcs : Module Text → List Text
effective_srcs m = effective_loop m.exclude_srcs [] m.srcs

-- ModuleGraph
abbrev pub ModuleGraph : Type 0 → Type 0
ModuleGraph A = Assoc (Module A)

unfoldable pub add : {A : Type 0} → Module A → ModuleGraph A → ModuleGraph A
add m graph = store m.name m graph

unfoldable pub as_text : Value → Result Text
as_text (str s) = ok s
as_text _ = err type_error

-- A module whose items are all texts. The later layers join, split or search an item as a text, and
-- raise TypeError at any other.
unfoldable pub with_texts : Module Value → Result (Module Text)
with_texts m = do
  srcs ← map_result as_text m.srcs
  exclude_srcs ← map_result as_text m.exclude_srcs
  cflags ← map_result as_text m.cflags
  cppflags ← map_result as_text m.cppflags
  conlyflags ← map_result as_text m.conlyflags
  ldflags ← map_result as_text m.ldflags
  include_dirs ← map_result as_text m.include_dirs
  local_include_dirs ← map_result as_text m.local_include_dirs
  export_include_dirs ← map_result as_text m.export_include_dirs
  shared_libs ← map_result as_text m.shared_libs
  static_libs ← map_result as_text m.static_libs
  whole_static_libs ← map_result as_text m.whole_static_libs
  header_libs ← map_result as_text m.header_libs
  generated_sources ← map_result as_text m.generated_sources
  generated_headers ← map_result as_text m.generated_headers
  ok (record {
    name = m.name;
    module_type = m.module_type;
    bp_dir = m.bp_dir;
    root_var = m.root_var;
    srcs = srcs;
    exclude_srcs = exclude_srcs;
    cflags = cflags;
    cppflags = cppflags;
    conlyflags = conlyflags;
    ldflags = ldflags;
    include_dirs = include_dirs;
    local_include_dirs = local_include_dirs;
    export_include_dirs = export_include_dirs;
    shared_libs = shared_libs;
    static_libs = static_libs;
    whole_static_libs = whole_static_libs;
    header_libs = header_libs;
    generated_sources = generated_sources;
    generated_headers = generated_headers;
    cpp_std = m.cpp_std;
    c_std = m.c_std;
    enabled = m.enabled;
    extra = m.extra;
  })

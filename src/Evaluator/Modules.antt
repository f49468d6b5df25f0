-- ===== src/Evaluator/Modules.antt =====
-- tools/bp2cmake/bp2cmake/evaluator.py: loading a file, and `resolve` with the defaults of a module.
use dalvikvm_multiplatform.Common.{
  ℕ, zero, suc, Bool, false, not, ◌&&◌, Option, none, some, List, [], ◌∷◌, map, if◌then◌else◌, ◌==◌,
  text_eq, contains, replace_char, Text, codes, Assoc, find, store, eval_error, unknown_module,
  unknown_defaults, unknown_defaults_value, type_error, recursion_error, unsupported_name, Result,
  ok, err, ◌>>=◌,
}
use dalvikvm_multiplatform.Lexer.{CharClass}
use dalvikvm_multiplatform.Ast
use dalvikvm_multiplatform.Ast.{Assignment, Statement, modules, assignments, Expr}
use dalvikvm_multiplatform.Parser.{parse}
use dalvikvm_multiplatform.Values.{
  Value, Dict, none_value, str, list, dict, empty, get, set, keys, is_true, to_list, concat,
  deep_merge,
}
use dalvikvm_multiplatform.Config.{Config}
use dalvikvm_multiplatform.Model.{Module, with_texts, effective_srcs, ModuleGraph, add}
use dalvikvm_multiplatform.Evaluator.Expressions.{eval, eval_properties}
use dalvikvm_multiplatform.Evaluator.Selects.{collapse_selects}
use dalvikvm_multiplatform.Evaluator.Mapping.{to_module}

-- An entry of `_decls`.
pub record Decl : Type 0 where
  pub m_ast : Ast.Module
  pub bp_dir : Text
  pub scope : Dict
  pub root_var : Text

pub record Evaluator : Type 0 where
  pub decls : Assoc Decl
  pub source_root : Text

-- `_portable_relpath`
unfoldable pub portable_relpath : Text → Text
portable_relpath path = replace_char b'\\' (b'/' ∷ []) path

-- _CC_MODULE_TYPES
abbrev pub cc_module_types : List Text
cc_module_types =
    codes "cc_library"
    ∷ codes "cc_library_shared"
    ∷ codes "cc_library_static"
    ∷ codes "cc_library_headers"
    ∷ codes "cc_binary"
    ∷ codes "cc_binary_host"
    ∷ codes "cc_object"
    ∷ codes "cc_defaults"
    ∷ codes "cc_test"
    ∷ codes "art_cc_library"
    ∷ codes "art_cc_library_static"
    ∷ codes "art_cc_binary"
    ∷ codes "art_cc_defaults"
    ∷ codes "art_cc_test"
    ∷ codes "art_cc_test_library"
    ∷ codes "libart_cc_defaults"
    ∷ codes "libart_static_cc_defaults"
    ∷ codes "art_debug_defaults"
    ∷ codes "filegroup"
    ∷ codes "genrule"
    ∷ codes "gensrcs"
    ∷ codes "cc_genrule"
    ∷ codes "python_binary_host"
    ∷ []

-- `name in self._decls` with its use as a key, for a name that is not false.
unfoldable pub name_key : Value → Result Text
name_key (str s) = ok s
name_key (list vs) = err type_error
name_key (dict d) = err type_error
name_key _ = err unsupported_name

-- The characters of a text, as texts.
unfoldable pub characters : Text → List Value
characters [] = []
characters (c ∷ s) = str (c ∷ []) ∷ characters s

-- `for x in v`, for a value that is not false.
unfoldable pub iterate : Value → Result (List Value)
iterate (list vs) = ok (to_list vs)
iterate (str s) = ok (characters s)
iterate (dict d) = ok (map (λ k. str k) (keys d))
iterate _ = err type_error

-- `raw.get("defaults", []) or []`, iterated.
unfoldable pub defaults_of : Dict → Result (List Value)
defaults_of raw = elim (get (codes "defaults") raw) [
  | none ↦ ok []
  | some v ↦ if is_true v then iterate v else ok []
]

-- `self._decls[name]` in `_resolve_propmap`. A list or a dict is no key, and any other value that is
-- no text is not there.
unfoldable pub defaults_decl : Assoc Decl → Value → Result Decl
defaults_decl decls (str name) = elim (find name decls) [
  | none ↦ err (eval_error (unknown_defaults name))
  | some d ↦ ok d
]
defaults_decl decls (list vs) = err type_error
defaults_decl decls (dict d) = err type_error
defaults_decl decls _ = err (eval_error unknown_defaults_value)

-- The loop over the defaults, with `_resolve_propmap` as `base_of`.
unfoldable pub merge_defaults : (Value → Result Dict) → Dict → List Value → Result Dict
merge_defaults base_of out [] = ok out
merge_defaults base_of out (v ∷ vs) = do
  base ← base_of v
  merge_defaults base_of (deep_merge out base) vs

module _ (config : Config) where
  -- `_build_scope`: one assignment, and the loop.
  unfoldable pub assign : Assignment → Dict → Result Dict
  assign a vars = do
    value ← eval config a.value vars
    elim (get a.name vars) [
      | none ↦ ok (set a.name value vars)
      | some old ↦
          if a.append
          then (do joined ← concat old value; ok (set a.name joined vars))
          else ok (set a.name value vars)
    ]

  unfoldable pub build_scope : List Assignment → Dict → Result Dict
  build_scope [] vars = ok vars
  build_scope (a ∷ as_) vars = do vars' ← assign a vars; build_scope as_ vars'

  -- `_module_name`
  unfoldable pub module_name : Ast.Module → Dict → Result Value
  module_name m scope = elim (Ast.get (codes "name") m.properties) [
    | none ↦ ok none_value
    | some e ↦ eval config e scope
  ]

  -- Whether the module already declared under a name keeps it.
  unfoldable pub keeps_incumbent : Option Decl → Ast.Module → Bool
  keeps_incumbent none incoming = false
  keeps_incumbent (some d) incoming =
      contains d.m_ast.module_type cc_module_types
      && not (contains incoming.module_type cc_module_types)

  -- The body of the loop over a file's modules.
  unfoldable pub declare : Text → Text → Dict → Ast.Module → Assoc Decl → Result (Assoc Decl)
  declare bp_dir root_var scope m decls = do
    value ← module_name m scope
    let new : Decl = record { m_ast = m; bp_dir = bp_dir; scope = scope; root_var = root_var }
    if is_true value
        then (do
          name ← name_key value
          ok (if keeps_incumbent (find name decls) m then decls else store name new decls))
        else ok decls

  unfoldable pub declare_all :
      Text → Text → Dict → List Ast.Module → Assoc Decl → Result (Assoc Decl)
  declare_all bp_dir root_var scope [] decls = ok decls
  declare_all bp_dir root_var scope (m ∷ ms) decls = do
    decls' ← declare bp_dir root_var scope m decls
    declare_all bp_dir root_var scope ms decls'

  -- `add_file`. `relpath bp_path source_root` stands for `os.path.relpath(os.path.dirname(bp_path),
  -- source_root)`, which depends on the host and its working directory.
  unfoldable pub add_file :
      CharClass → (Text → Text → Text) → Text → Text → Text → Text → Evaluator → Result Evaluator
  add_file cls relpath text bp_path source_root root_var ev = do
    statements ← parse cls text
    let dir = portable_relpath (relpath bp_path source_root)
    let bp_dir = if source_root == [] then [] else if dir == codes "." then [] else dir
    let root = if source_root == [] then ev.source_root else source_root
    scope ← build_scope (assignments statements) empty
    decls ← declare_all bp_dir root_var scope (modules statements) ev.decls
    ok (record { decls = decls; source_root = root })

  module _ (ev : Evaluator) where
    -- The body that `_resolve_propmap` and `resolve` share: the module's own properties on top of
    -- those of its defaults.
    unfoldable pub own_props : (Value → Result Dict) → Decl → Result Dict
    own_props base_of d = do
      raw ← eval_properties config d.m_ast.properties d.scope
      names ← defaults_of raw
      merged ← merge_defaults base_of empty names
      ok (deep_merge merged raw)

    -- `_resolve_propmap`, with a unit of fuel for each call; `recursion_error` is its end, as Python's
    -- RecursionError is that of its stack.
    unfoldable pub resolve_propmap : ℕ → Value → Result Dict
    resolve_propmap zero name = err recursion_error
    resolve_propmap (suc f) name = do
      d ← defaults_decl ev.decls name
      own_props (resolve_propmap f) d

    -- `resolve`, with the fuel of the recursion over defaults.
    unfoldable pub resolve : ℕ → Text → Result (Module Value)
    resolve f name = elim (find name ev.decls) [
      | none ↦ err (eval_error (unknown_module name))
      | some d ↦ do
        merged ← own_props (resolve_propmap f) d
        collapsed ← collapse_selects config merged
        ok (to_module name d.m_ast.module_type d.bp_dir collapsed d.root_var)
    ]

    -- The module as the later layers take it.
    unfoldable pub resolve_texts : ℕ → Text → Result (Module Text)
    resolve_texts f name = do m ← resolve f name; with_texts m

    -- `resolve_source_container`: the sources, the directory and the root.
    unfoldable pub resolve_source_container : ℕ → Text → Result (Option (List Text × Text × Text))
    resolve_source_container f name = elim (find name ev.decls) [
      | none ↦ ok none
      | some d ↦
          if contains d.m_ast.module_type (codes "filegroup" ∷ codes "cc_object" ∷ [])
          then (do m ← resolve_texts f name; ok (some (effective_srcs m, m.bp_dir, m.root_var)))
          else ok none
    ]

    -- `build_graph`
    unfoldable pub build_graph : ℕ → List Text → ModuleGraph Value → Result (ModuleGraph Value)
    build_graph f [] graph = ok graph
    build_graph f (n ∷ ns) graph = do m ← resolve f n; build_graph f ns (add m graph)

-- ===== src/Evaluator/Generated.antt =====
-- tools/bp2cmake/bp2cmake/evaluator.py: `resolve_gensrcs` and `tool_script`, for generated sources.
use dalvikvm_multiplatform.Common.{
  Option, none, some, List, [], ◌∷◌, if◌then◌else◌, Text, codes, find, eval_error, unknown_gensrcs,
  type_error, key_error, Result, ok, err, ◌>>=◌,
}
use dalvikvm_multiplatform.Values.{
  Value, Dict, nil, cons, none_value, str, list, dict, get, is_true,
}
use dalvikvm_multiplatform.Config.{Config}
use dalvikvm_multiplatform.Evaluator.Expressions.{eval_properties}
use dalvikvm_multiplatform.Evaluator.Modules.{Evaluator, iterate}

-- GenSrcs of model.py, its fields as the Blueprint file gave them.
pub record GenSrcs : Type 0 where
  pub name : Text
  pub bp_dir : Text
  pub tool : Value
  pub cmd : Value
  pub srcs : List Value
  pub output_extension : Value
  pub root_var : Text

-- `raw.get(key, default)`
unfoldable pub get_or : Text → Value → Dict → Value
get_or key default raw = elim (get key raw) [ none ↦ default | some v ↦ v ]

-- `v[0]` of a value that is not false. No key of a dict is a number.
unfoldable pub first : Value → Result Value
first (list (cons v vs)) = ok v
first (str (c ∷ s)) = ok (str (c ∷ []))
first (dict d) = err key_error
first _ = err type_error

-- `v[0] if v else default`
unfoldable pub first_or : Value → Value → Result Value
first_or default v = if is_true v then first v else ok default

-- `list(v or [])`
unfoldable pub listed : Value → Result (List Value)
listed v = if is_true v then iterate v else ok []

-- `main if isinstance(main, str) else (srcs[0] if srcs else None)`
unfoldable pub script_of : Option Value → Value → Result Value
script_of (some (str s)) srcs = ok (str s)
script_of main srcs = first_or none_value srcs

module _ (config : Config) (ev : Evaluator) where
  unfoldable pub resolve_gensrcs : Text → Result GenSrcs
  resolve_gensrcs name = elim (find name ev.decls) [
    | none ↦ err (eval_error (unknown_gensrcs name))
    | some d ↦ do
      raw ← eval_properties config d.m_ast.properties d.scope
      tool ← first_or (str []) (get_or (codes "tools") (list nil) raw)
      srcs ← listed (get_or (codes "srcs") (list nil) raw)
      ok (record {
        name = name;
        bp_dir = d.bp_dir;
        tool = tool;
        cmd = get_or (codes "cmd") (str []) raw;
        srcs = srcs;
        output_extension = get_or (codes "output_extension") (str (codes "out")) raw;
        root_var = d.root_var;
      })
  ]

  unfoldable pub tool_script : Text → Result (Option (Text × Value × Text))
  tool_script tool_name = elim (find tool_name ev.decls) [
    | none ↦ ok none
    | some d ↦ do
      raw ← eval_properties config d.m_ast.properties d.scope
      script ← script_of (get (codes "main") raw) (get_or (codes "srcs") (list nil) raw)
      ok (if is_true script then some (d.bp_dir, script, d.root_var) else none)
  ]

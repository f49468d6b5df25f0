-- ===== src/Tests/Graph.antt =====
-- Inputs of tools/bp2cmake/bp2cmake/evaluator.py: property maps, and modules with defaults.
use dalvikvm_multiplatform.Common.{
  ◌≡◌, refl, ℕ, ◌<◌, true, false, Bool-cases, inl, inr, some, none, List, [], ◌∷◌, ◌==◌,
  if◌then◌else◌, Text, codes, text_eq, text_beq, find, All, ok, err, recursion_error, Ends, arith,
  ok-injective, sym, ap, ◌∙◌, subst,
}
use dalvikvm_multiplatform.Lexer.{ascii}
use dalvikvm_multiplatform.Ast.{
  Expr, Cases, Condition, select, case, no_cases, literal, default_value, list_expr, string_lit,
  var_ref, concat, no_exprs, expr, no_entries, entry,
}
use dalvikvm_multiplatform.Values.{
  Value, nil, cons, Dict, str, list, dict, empty, bind, get, set, is_true, to_list, deep_merge,
}
use dalvikvm_multiplatform.Values.Keys.{IsUnique}
use dalvikvm_multiplatform.Values.Merge.{Merged, get-deep_merge}
use dalvikvm_multiplatform.Config.{Config, select_condition_value}
use dalvikvm_multiplatform.Evaluator.Expressions.{
  eval, eval_items, eval_entries, eval_properties, eval_matching, match_case, pattern_ok,
  pattern_beq, condition_values,
}
use dalvikvm_multiplatform.Evaluator.Selects.{collapse_selects}
use dalvikvm_multiplatform.Evaluator.Collapse.{NoSelects, collapse_selects-Collapses}
use dalvikvm_multiplatform.Evaluator.Modules.{
  Decl, Evaluator, defaults_of, iterate, resolve_propmap, resolve, add_file,
}
use dalvikvm_multiplatform.Evaluator.Defaults.{Evaluates, Resolves, eval_lem}
use dalvikvm_multiplatform.Evaluator.Recursion.{
  Below, IsRanked, resolve-Resolves, resolve_propmap-cycle,
}
use dalvikvm_multiplatform.Evaluator.Mapping.{to_module}
use dalvikvm_multiplatform.Evaluator.Arms.{append_cases, eval-default_arm}
use dalvikvm_multiplatform.Evaluator.Tags.{Untagged, to_module-Untagged}
use dalvikvm_multiplatform.Evaluator.Collisions.{Keeps, AnyError, add_file-Keeps}

abbrev config : Config
config = record {
  os = codes "windows";
  arch = codes "x86_64";
  bitness = 64;
  host = true;
  avx2 = false;
}

-- { a: ["x"], target: { windows: { a: ["y"] } } }
abbrev flags : Dict
flags = bind (codes "a") (list (cons (str (codes "x")) nil)) (
    bind (codes "target")
      (dict (
        bind (codes "windows") (dict (bind (codes "a") (list (cons (str (codes "y")) nil)) empty))
          empty))
      empty)

abbrev more : Dict
more = bind (codes "a") (list (cons (str (codes "z")) nil)) empty

get-deep_merge_example :
    Merged (get (codes "a") flags) (get (codes "a") more) (get (codes "a") (deep_merge flags more))
unfolding IsUnique get
get-deep_merge_example = get-deep_merge (codes "a") flags more (refl, tt)

collapse_selects_example : (c : Dict) × (collapse_selects config flags ≡ ok c) × NoSelects c
collapse_selects_example = collapse_selects-Collapses config flags

abbrev sum : Expr
sum = concat (list_expr (expr (string_lit (codes "x") 1) no_exprs) 1) (var_ref (codes "w") 1) 1

eval_example : Evaluates (eval config sum flags)
eval_example = eval_lem config sum flags

abbrev with_defaults : Text → Decl
with_defaults name = record {
  m_ast = record {
    module_type = codes "cc_defaults";
    properties =
        entry (codes "defaults") (list_expr (expr (string_lit name 1) no_exprs) 1) no_entries;
    properties_line = 1;
    line = 1;
  };
  bp_dir = [];
  scope = empty;
  root_var = codes "ROOT";
}

abbrev plain : Decl
plain = record {
  m_ast = record {
    module_type = codes "cc_defaults";
    properties = no_entries;
    properties_line = 1;
    line = 1;
  };
  bp_dir = [];
  scope = empty;
  root_var = codes "ROOT";
}

-- `a` has the defaults `b`, and `c` has itself.
abbrev chain : Evaluator
chain = record {
  decls = (codes "a", with_defaults (codes "b")) ∷ (codes "b", plain) ∷ [];
  source_root = [];
}

abbrev knot : Evaluator
knot = record { decls = (codes "c", with_defaults (codes "c")) ∷ []; source_root = [] }

abbrev raw_of : Text → Dict
raw_of name = bind (codes "defaults") (list (cons (str name) nil)) empty

with_defaults-raw :
    (name : Text)
    → eval_properties config (with_defaults name).m_ast.properties empty ≡ ok (raw_of name)
unfolding eval_properties eval_entries eval eval_items set
with_defaults-raw name = refl

plain-raw : eval_properties config plain.m_ast.properties empty ≡ ok empty
unfolding eval_properties eval_entries
plain-raw = refl

defaults_of-raw : (name : Text) → defaults_of (raw_of name) ≡ ok (str name ∷ [])
unfolding defaults_of get is_true iterate to_list text_beq
defaults_of-raw name = refl

resolve_propmap-cycle_example :
    resolve_propmap config knot 1000 (str (codes "c")) ≡ err recursion_error
unfolding find text_beq
resolve_propmap-cycle_example =
    resolve_propmap-cycle config knot (codes "c") (with_defaults (codes "c")) (raw_of (codes "c"))
      [] refl (with_defaults-raw (codes "c")) (defaults_of-raw (codes "c")) 1000

abbrev rank : Text → ℕ
rank name = if codes "a" == name then 1 else 0

-- The defaults of a declaration are those that its properties give.
given_defaults :
    (d e : Decl) (raw raw' : Dict) (vs vs' : List Value)
    → some d ≡ some e
    → eval_properties config d.m_ast.properties d.scope ≡ ok raw
    → defaults_of raw ≡ ok vs
    → eval_properties config e.m_ast.properties e.scope ≡ ok raw'
    → defaults_of raw' ≡ ok vs'
    → vs ≡ vs'
given_defaults d e raw raw' vs vs' h r v r' v' =
    let same : d ≡ e = cc in
    let same_raw : raw ≡ raw' =
      ok-injective
        (sym r ∙ ap (λ x. eval_properties config x.m_ast.properties x.scope) same ∙ r') in
    ok-injective (sym v ∙ ap defaults_of same_raw ∙ v')

b_below : rank (codes "b") < 1
unfolding text_beq
b_below = omega arith

defaults_of-empty : defaults_of empty ≡ ok []
unfolding defaults_of get
defaults_of-empty = refl

chain-IsRanked : IsRanked config chain rank
unfolding find
chain-IsRanked name d raw vs found r v = elim (Bool-cases (codes "a" == name)) [
  | inl a ↦
      subst (All (Below rank (rank name)))
        (given_defaults (with_defaults (codes "b")) d (raw_of (codes "b")) raw
          (str (codes "b") ∷ []) vs (ground arith) (with_defaults-raw (codes "b"))
          (defaults_of-raw (codes "b")) r v)
        (rw a b_below, tt)
  | inr other ↦ elim (Bool-cases (codes "b" == name)) [
    | inl b ↦
        subst (All (Below rank (rank name)))
          (given_defaults plain d empty raw [] vs (ground arith) plain-raw defaults_of-empty r v) tt
    | inr none_left ↦ cc
  ]
]

resolve-Resolves_example : Resolves (resolve config chain 2 (codes "a"))
unfolding text_beq
resolve-Resolves_example =
    resolve-Resolves config chain rank chain-IsRanked 2 (codes "a") (omega arith)

add_file-Keeps_example :
    Ends AnyError
      (λ ev. Keeps chain.decls ev.decls)
      (add_file config ascii
        (λ bp root. codes ".")
        (codes "foo { name: \"a\" }")
        (codes "x/Android.bp")
        (codes "x")
        (codes "ROOT")
        chain)
add_file-Keeps_example =
    add_file-Keeps config ascii (λ bp root. codes ".") (codes "foo { name: \"a\" }")
      (codes "x/Android.bp") (codes "x") (codes "ROOT") chain

abbrev tagged : Dict
tagged = bind (codes "shared_libs") (list (cons (str (codes "libfoo#impl")) nil)) empty

to_module-Untagged_example :
    Untagged (to_module (codes "a") (codes "cc_library") [] tagged (codes "ROOT"))
to_module-Untagged_example =
    to_module-Untagged (codes "a") (codes "cc_library") [] tagged (codes "ROOT")

-- os() = "windows", with the cases before and after a `default`.
abbrev windows_case : Cases
windows_case = case (literal (codes "windows") ∷ []) (string_lit (codes "w") 1) none no_cases

abbrev os_condition : List Condition
os_condition = record { func = codes "os"; args = [] } ∷ []

eval-default_arm_example :
    (eval config
        (select os_condition
          (append_cases no_cases
            (case (default_value ∷ []) (string_lit (codes "d") 1) none windows_case))
          1)
        empty
      ≡ ok (str (codes "w")))
    × (eval config (select os_condition (append_cases no_cases windows_case) 1) empty
        ≡ ok (str (codes "w")))
unfolding eval_matching match_case pattern_ok pattern_beq condition_values select_condition_value
    text_beq eval
eval-default_arm_example =
    eval-default_arm config os_condition no_cases windows_case (default_value ∷ [])
      (string_lit (codes "d") 1) none 1 empty (ok (str (codes "w"))) refl refl

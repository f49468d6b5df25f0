-- ===== src/Evaluator/Expressions.antt =====
-- tools/bp2cmake/bp2cmake/evaluator.py: `_eval` and `_eval_select`, over a file's variables.
use dalvikvm_multiplatform.Common.{
  Bool, true, false, Option, none, some, List, [], ◌∷◌, if◌then◌else◌, ◌==◌, text_eq, Text, map,
  eval_error, undefined_variable, Result, ok, err, ◌>>=◌,
}
use dalvikvm_multiplatform.Ast.{
  Pattern, literal, boolean, any_value, default_value, Condition, Expr, Exprs, Entries, Cases,
  string_lit, bool_lit, int_lit, var_ref, list_expr, map_expr, concat, select, no_exprs, expr,
  no_entries, entry, no_cases, case,
}
use dalvikvm_multiplatform.Values.{
  Value, Values, Dict, none_value, str, int, list, dict, nil, cons, empty, get, set,
  concat as concat_values,
}
use dalvikvm_multiplatform.Config.{Config, select_condition_value}

abbrev bool_beq : Bool → Bool → Bool
bool_beq true true = true
bool_beq false false = true
bool_beq _ _ = false

-- `pat == cv` for a pattern that is a text or a boolean. A condition is a text, a boolean or unset.
unfoldable pub pattern_beq : Pattern → Value → Bool
pattern_beq (literal s) (str t) = s == t
pattern_beq (boolean b) (Value.boolean c) = bool_beq b c
pattern_beq _ _ = false

unfoldable pub is_set : Value → Bool
is_set none_value = false
is_set _ = true

-- One round of the loop over `zip(pats, cond_values)`.
unfoldable pub pattern_ok : Bool → Pattern → Value → Bool
pattern_ok allow_default default_value cv = allow_default
pattern_ok allow_default any_value cv = is_set cv
pattern_ok allow_default (literal s) cv = pattern_beq (literal s) cv
pattern_ok allow_default (boolean b) cv = pattern_beq (boolean b) cv

-- The body of the loop in `try_match` for one case: `bound` is the condition matched last. A case
-- of another length does not match.
unfoldable pub match_case : Bool → List Pattern → List Value → Value → Option Value
match_case allow [] [] bound = some bound
match_case allow [] (cv ∷ cvs) bound = none
match_case allow (p ∷ ps) [] bound = none
match_case allow (p ∷ ps) (cv ∷ cvs) bound =
    if pattern_ok allow p cv then match_case allow ps cvs cv else none

-- The variables in the chosen case's value: `dict(scope.vars)` with the binding set.
unfoldable pub case_scope : Option Text → Value → Dict → Dict
case_scope none bound scope = scope
case_scope (some name) bound scope = set name bound scope

module _ (config : Config) where
  unfoldable pub condition_values : List Condition → List Value
  condition_values = map (λ c. select_condition_value config c.func c.args)

  -- `eval_matching` is `try_match` with the evaluation of the case that it finds, since the value of
  -- a case is a part of the expression only there.
  unfoldable mutual
    pub eval : Expr → Dict → Result Value
    eval (string_lit s line) scope = ok (str s)
    eval (bool_lit b line) scope = ok (Value.boolean b)
    eval (int_lit n line) scope = ok (int n)
    eval (var_ref name line) scope = elim (get name scope) [
      | none ↦ err (eval_error (undefined_variable name))
      | some v ↦ ok v
    ]
    eval (list_expr items line) scope = do vs ← eval_items items scope; ok (list vs)
    eval (map_expr entries line) scope = do d ← eval_entries entries empty scope; ok (dict d)
    eval (concat left right line) scope = do
      a ← eval left scope
      b ← eval right scope
      concat_values a b
    eval (select conditions cases line) scope =
        let cvs = condition_values conditions in
        elim (eval_matching cases false cvs scope) [
          | some r ↦ r
          | none ↦ elim (eval_matching cases true cvs scope) [ some r ↦ r | none ↦ ok none_value ]
        ]

    pub eval_items : Exprs → Dict → Result Values
    eval_items no_exprs scope = ok nil
    eval_items (expr e es) scope = do v ← eval e scope; vs ← eval_items es scope; ok (cons v vs)

    -- `{k: self._eval(v, scope) for k, v in entries}`, on top of the items made so far.
    pub eval_entries : Entries → Dict → Dict → Result Dict
    eval_entries no_entries made scope = ok made
    eval_entries (entry k e es) made scope = do
      v ← eval e scope
      eval_entries es (set k v made) scope

    pub eval_matching : Cases → Bool → List Value → Dict → Option (Result Value)
    eval_matching no_cases allow cvs scope = none
    eval_matching (case ps value binding cs) allow cvs scope =
        elim (match_case allow ps cvs none_value) [
          | some bound ↦ some (eval value (case_scope binding bound scope))
          | none ↦ eval_matching cs allow cvs scope
        ]

  -- The properties of a module: `raw`.
  unfoldable pub eval_properties : Entries → Dict → Result Dict
  eval_properties entries scope = eval_entries entries empty scope

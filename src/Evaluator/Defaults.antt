-- ===== src/Evaluator/Defaults.antt =====
-- tools/bp2cmake/bp2cmake/evaluator.py: the errors of an evaluation, and the recursion of
-- `_resolve_propmap` over the `defaults` of modules.
use dalvikvm_multiplatform.Common.{
  Bool, true, false, Option, none, some, List, Text, Error, ℤ, undefined_variable, eval_error,
  type_error, Result, ok, err, Ends, returned, raised, Ends-bind, Ends-map,
}
use dalvikvm_multiplatform.Ast.{
  Expr, Exprs, Entries, Cases, string_lit, bool_lit, int_lit, var_ref, list_expr, map_expr, concat,
  select, no_exprs, expr, no_entries, entry, no_cases, case,
}
use dalvikvm_multiplatform.Values.{
  Value, Dict, none_value, str, list, empty, get, set, concat as concat_values, concat_ints, as_int,
}
use dalvikvm_multiplatform.Config.{Config}
use dalvikvm_multiplatform.Evaluator.Expressions.{
  match_case, case_scope, condition_values, eval, eval_items, eval_entries, eval_matching,
  eval_properties,
}

abbrev pub IsEvalError : Error → Type 0
IsEvalError (eval_error _) = Unit
IsEvalError _ = ⊥

-- The run returns, or raises an EvalError.
abbrev pub Evaluates : {A : Type 0} → Result A → Type 0
Evaluates {A} = Ends IsEvalError (λ (a : A). Unit {0})

concat_ints-Evaluates : (a b : Option ℤ) → Evaluates (concat_ints a b)
unfolding concat_ints
concat_ints-Evaluates (some a) (some b) = returned tt
concat_ints-Evaluates (some a) none = raised tt
concat_ints-Evaluates none b = raised tt

pub concat-Evaluates : (a b : Value) → Evaluates (concat_values a b)
unfolding concat_values
concat-Evaluates none_value b = returned tt
concat-Evaluates a none_value = returned tt
concat-Evaluates (str a) (str b) = returned tt
concat-Evaluates (list a) (list b) = returned tt
concat-Evaluates a b = concat_ints-Evaluates (as_int a) (as_int b)

-- What a search for a case found evaluates.
abbrev FoundEvaluates : Option (Result Value) → Type 0
FoundEvaluates none = Unit
FoundEvaluates (some r) = Evaluates r

variable-Evaluates :
    (name : Text) (o : Option Value)
    → Evaluates (elim o [ none ↦ err (eval_error (undefined_variable name)) | some v ↦ ok v ])
variable-Evaluates name none = raised tt
variable-Evaluates name (some v) = returned tt

two_passes-Evaluates :
    (p q : Option (Result Value))
    → FoundEvaluates p
    → FoundEvaluates q
    → Evaluates (elim p [ some r ↦ r | none ↦ elim q [ some r ↦ r | none ↦ ok none_value ] ])
two_passes-Evaluates (some r) q h k = h
two_passes-Evaluates none (some r) h k = k
two_passes-Evaluates none none h k = returned tt

case-Evaluates :
    (o : Option Value) (found : Value → Result Value) (rest : Option (Result Value))
    → ((v : Value) → Evaluates (found v))
    → FoundEvaluates rest
    → FoundEvaluates (elim o [ some bound ↦ some (found bound) | none ↦ rest ])
case-Evaluates none found rest h k = k
case-Evaluates (some v) found rest h k = h v

module _ (config : Config) where
  mutual
    unfolding eval

    eval-Evaluates : (e : Expr) (scope : Dict) → Evaluates (eval config e scope)
    eval-Evaluates (string_lit s line) scope = returned tt
    eval-Evaluates (bool_lit b line) scope = returned tt
    eval-Evaluates (int_lit n line) scope = returned tt
    eval-Evaluates (var_ref name line) scope = variable-Evaluates name (get name scope)
    eval-Evaluates (list_expr items line) scope =
        Ends-bind (eval_items-Evaluates items scope) λ vs _. returned tt
    eval-Evaluates (map_expr entries line) scope =
        Ends-bind (eval_entries-Evaluates entries empty scope) λ d _. returned tt
    eval-Evaluates (concat left right line) scope =
        Ends-bind (eval-Evaluates left scope)
          λ a _. Ends-bind (eval-Evaluates right scope) λ b _. concat-Evaluates a b
    eval-Evaluates (select conditions cases line) scope =
        let cvs = condition_values config conditions in
        two_passes-Evaluates (eval_matching config cases false cvs scope)
          (eval_matching config cases true cvs scope)
          (eval_matching-Evaluates cases false cvs scope)
          (eval_matching-Evaluates cases true cvs scope)

    eval_items-Evaluates : (es : Exprs) (scope : Dict) → Evaluates (eval_items config es scope)
    eval_items-Evaluates no_exprs scope = returned tt
    eval_items-Evaluates (expr e es) scope =
        Ends-bind (eval-Evaluates e scope)
          λ v _. Ends-bind (eval_items-Evaluates es scope) λ vs _. returned tt

    eval_entries-Evaluates :
        (es : Entries) (made scope : Dict) → Evaluates (eval_entries config es made scope)
    eval_entries-Evaluates no_entries made scope = returned tt
    eval_entries-Evaluates (entry k e es) made scope =
        Ends-bind (eval-Evaluates e scope) λ v _. eval_entries-Evaluates es (set k v made) scope

    eval_matching-Evaluates :
        (cs : Cases) (allow : Bool) (cvs : List Value) (scope : Dict)
        → FoundEvaluates (eval_matching config cs allow cvs scope)
    eval_matching-Evaluates no_cases allow cvs scope = tt
    eval_matching-Evaluates (case ps value binding cs) allow cvs scope =
        case-Evaluates (match_case allow ps cvs none_value)
          (λ bound. eval config value (case_scope binding bound scope))
          (eval_matching config cs allow cvs scope)
          (λ bound. eval-Evaluates value (case_scope binding bound scope))
          (eval_matching-Evaluates cs allow cvs scope)

-- For every expression and scope, `_eval` returns or raises an EvalError.
pub eval_lem : (config : Config) (e : Expr) (scope : Dict) → Evaluates (eval config e scope)
eval_lem config e scope = eval-Evaluates config e scope

-- What the resolution of a module may raise when its defaults have no cycle: an EvalError, or the
-- TypeError of a `defaults` that is no list of names.
abbrev pub IsResolveError : Error → Type 0
IsResolveError (eval_error _) = Unit
IsResolveError type_error = Unit
IsResolveError _ = ⊥

abbrev pub Resolves : {A : Type 0} → Result A → Type 0
Resolves {A} = Ends IsResolveError (λ (a : A). Unit {0})

pub Evaluates-Resolves : {A : Type 0} {r : Result A} → Evaluates r → Resolves r
Evaluates-Resolves e = Ends-map e (λ _ h. h) weaken
  where
    weaken : (x : Error) → IsEvalError x → IsResolveError x
    weaken (eval_error f) h = h
    weaken _ h = elim h [ ]

pub eval_properties-Evaluates :
    (config : Config) (es : Entries) (scope : Dict) → Evaluates (eval_properties config es scope)
unfolding eval_properties
eval_properties-Evaluates config es scope = eval_entries-Evaluates config es empty scope

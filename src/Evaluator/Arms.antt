-- ===== src/Evaluator/Arms.antt =====
-- tools/bp2cmake/bp2cmake/evaluator.py: which case of a select `_eval_select` chooses.
use dalvikvm_multiplatform.Common.{
  ◌≡◌, refl, ◌∙◌, Bool, true, false, ◌||◌, Option, none, some, List, [], ◌∷◌, Text, Result, ok,
  Bool-cases, inl, inr, ℕ, arith, ap,
}
use dalvikvm_multiplatform.Ast.{
  Pattern, literal, boolean, any_value, default_value, Condition, Expr, Cases, select, no_cases,
  case,
}
use dalvikvm_multiplatform.Values.{Value, Dict, none_value}
use dalvikvm_multiplatform.Config.{Config}
use dalvikvm_multiplatform.Evaluator.Expressions.{
  pattern_ok, match_case, case_scope, condition_values, eval, eval_matching,
}

-- The cases `before`, then `after`.
abbrev pub append_cases : Cases → Cases → Cases
append_cases no_cases after = after
append_cases (case ps value binding before) after =
    case ps value binding (append_cases before after)

abbrev pub is_default : Pattern → Bool
is_default default_value = true
is_default _ = false

abbrev pub has_default : List Pattern → Bool
has_default [] = false
has_default (p ∷ ps) = is_default p || has_default ps

pattern_ok-default : (p : Pattern) (v : Value) → is_default p ≡ true → pattern_ok false p v ≡ false
unfolding pattern_ok
pattern_ok-default default_value v h = refl
pattern_ok-default (literal s) v h = cc
pattern_ok-default (boolean b) v h = cc
pattern_ok-default any_value v h = cc

match_case-default :
    (ps : List Pattern) (cvs : List Value) (bound : Value)
    → has_default ps ≡ true
    → match_case false ps cvs bound ≡ none
unfolding match_case
match_case-default [] cvs bound h = cc
match_case-default (p ∷ ps) [] bound h = refl
match_case-default (p ∷ ps) (v ∷ cvs) bound h = elim (Bool-cases (pattern_ok false p v)) [
  | inr refused ↦ rw refused refl
  | inl taken ↦ elim (Bool-cases (is_default p)) [
    | inl d ↦ rw (pattern_ok-default p v d) refl
    | inr other ↦ rw (taken, match_case-default ps cvs v (ground arith)) refl
  ]
]

-- The value of the case that the first or the second pass finds.
abbrev chosen : Option (Result Value) → Option (Result Value) → Result Value
chosen p q = elim p [ some r ↦ r | none ↦ elim q [ some r ↦ r | none ↦ ok none_value ] ]

module _ (config : Config) where
  eval_matching-default :
      (before after : Cases) (ps : List Pattern) (value : Expr) (binding : Option Text)
      (cvs : List Value) (scope : Dict)
      → has_default ps ≡ true
      → eval_matching config (append_cases before (case ps value binding after)) false cvs scope
        ≡ eval_matching config (append_cases before after) false cvs scope
  unfolding eval_matching
  eval_matching-default no_cases after ps value binding cvs scope h =
      ap
        (λ o. elim o [
          | some bound ↦ some (eval config value (case_scope binding bound scope))
          | none ↦ eval_matching config after false cvs scope
        ])
        (match_case-default ps cvs none_value h)
  eval_matching-default (case qs v b before) after ps value binding cvs scope h =
      ap
        (λ rest. elim (match_case false qs cvs none_value) [
          | some bound ↦ some (eval config v (case_scope b bound scope))
          | none ↦ rest
        ])
        (eval_matching-default before after ps value binding cvs scope h)

  -- A case with a `default` pattern, wherever it stands, does not change the value of a select in
  -- which a case without one matches.
  pub eval-default_arm :
      (conditions : List Condition) (before after : Cases) (ps : List Pattern) (value : Expr)
      (binding : Option Text) (line : ℕ) (scope : Dict) (r : Result Value)
      → has_default ps ≡ true
      → eval_matching config
          (append_cases before after)
          false
          (condition_values config conditions)
          scope
        ≡ some r
      → (eval config
            (select conditions (append_cases before (case ps value binding after)) line)
            scope
          ≡ r)
        × (eval config (select conditions (append_cases before after) line) scope ≡ r)
  unfolding eval
  eval-default_arm conditions before after ps value binding line scope r h found =
      let cvs = condition_values config conditions in
      let with_arm = append_cases before (case ps value binding after) in
      (
        ap (λ o. chosen o (eval_matching config with_arm true cvs scope))
            (eval_matching-default before after ps value binding cvs scope h ∙ found),
        ap (λ o. chosen o (eval_matching config (append_cases before after) true cvs scope)) found,
      )

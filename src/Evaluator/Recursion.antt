-- ===== src/Evaluator/Recursion.antt =====
-- tools/bp2cmake/bp2cmake/evaluator.py: `resolve` follows the `defaults` of a module to their end if
-- they have no cycle, and without end if they have one.
use dalvikvm_multiplatform.Common.{
  ℕ, zero, suc, ◌<◌, ◌≡◌, refl, Option, none, some, List, [], ◌∷◌, Text, Assoc, find, eval_error,
  unknown_defaults, recursion_error, Result, ok, err, ◌>>=◌, returned, raised, Ends-bind,
  Ends-bind_eq, All, arith, if◌then◌else◌, if_ind, Option-cases, inl, inr,
}
use dalvikvm_multiplatform.Values.{
  Value, Dict, none_value, str, list, dict, empty, get, is_true, deep_merge,
}
use dalvikvm_multiplatform.Config.{Config}
use dalvikvm_multiplatform.Evaluator.Expressions.{eval_properties}
use dalvikvm_multiplatform.Evaluator.Selects.{collapse_selects}
use dalvikvm_multiplatform.Evaluator.Collapse.{collapse_selects-Collapses}
use dalvikvm_multiplatform.Evaluator.Mapping.{to_module}
use dalvikvm_multiplatform.Evaluator.Modules.{
  Decl, Evaluator, iterate, defaults_of, defaults_decl, merge_defaults, own_props, resolve_propmap,
  resolve,
}
use dalvikvm_multiplatform.Evaluator.Defaults.{
  Resolves, Evaluates-Resolves, eval_properties-Evaluates,
}

iterate-Resolves : (v : Value) → Resolves (iterate v)
unfolding iterate
iterate-Resolves (list vs) = returned tt
iterate-Resolves (str s) = returned tt
iterate-Resolves (dict d) = returned tt
iterate-Resolves _ = raised tt

defaults_of-Resolves : (raw : Dict) → Resolves (defaults_of raw)
unfolding defaults_of
defaults_of-Resolves raw = at_key (get _ raw)
  where
    at_key :
        (o : Option Value)
        → Resolves (elim o [ none ↦ ok [] | some v ↦ if is_true v then iterate v else ok [] ])
    at_key none = returned tt
    at_key (some v) = if_ind Resolves (is_true v) (λ _. iterate-Resolves v) (λ _. returned tt)

merge_defaults-Resolves :
    (base_of : Value → Result Dict) (vs : List Value) (out : Dict)
    → All (λ v. Resolves (base_of v)) vs
    → Resolves (merge_defaults base_of out vs)
unfolding merge_defaults
merge_defaults-Resolves base_of [] out h = returned tt
merge_defaults-Resolves base_of (v ∷ vs) out h =
    Ends-bind h.0 λ base _. merge_defaults-Resolves base_of vs (deep_merge out base) h.1

defaults_decl-found :
    (decls : Assoc Decl) (name : Text) (d : Decl)
    → find name decls ≡ some d
    → defaults_decl decls (str name) ≡ ok d
unfolding defaults_decl
defaults_decl-found decls name d e = rw (e, defaults_decl) refl

defaults_decl-missing :
    (decls : Assoc Decl) (name : Text)
    → find name decls ≡ none
    → defaults_decl decls (str name) ≡ err (eval_error (unknown_defaults name))
unfolding defaults_decl
defaults_decl-missing decls name e = rw (e, defaults_decl) refl

-- The name that a default gives ranks below `n`. What is no text names nothing.
abbrev pub Below : (Text → ℕ) → ℕ → Value → Type 0
Below rank n (str s) = rank s < n
Below rank n _ = Unit

module _ (config : Config) (ev : Evaluator) where
  -- The defaults of every module rank below it, so they have no cycle.
  abbrev pub IsRanked : (Text → ℕ) → Type 0
  IsRanked rank =
      (name : Text) (d : Decl) (raw : Dict) (vs : List Value)
      → find name ev.decls ≡ some d
      → eval_properties config d.m_ast.properties d.scope ≡ ok raw
      → defaults_of raw ≡ ok vs
      → All (Below rank (rank name)) vs

  module _ (rank : Text → ℕ) (ranked : IsRanked rank) where
    abbrev Fits : ℕ → Value → Type 0
    Fits f (str s) = suc (rank s) < f
    Fits f _ = 0 < f

    Below-Fits : (n f : ℕ) → n < f → (v : Value) → Below rank n v → Fits f v
    Below-Fits n f le none_value b = omega arith
    Below-Fits n f le (str s) b = omega arith
    Below-Fits n f le _ b = omega arith

    All-Fits :
        (n f : ℕ) (base_of : Value → Result Dict)
        → n < f
        → ((v : Value) → Fits f v → Resolves (base_of v))
        → (vs : List Value) → All (Below rank n) vs
        → All (λ v. Resolves (base_of v)) vs
    All-Fits n f base_of le h [] b = tt
    All-Fits n f base_of le h (v ∷ vs) b =
        (h v (Below-Fits n f le v b.0), All-Fits n f base_of le h vs b.1)

    own_props-Resolves :
        (f : ℕ) (name : Text) (d : Decl)
        → find name ev.decls ≡ some d
        → rank name < f
        → ((v : Value) → Fits f v → Resolves (resolve_propmap config ev f v))
        → Resolves (own_props config ev (resolve_propmap config ev f) d)
    unfolding own_props
    own_props-Resolves f name d found le h =
        Ends-bind_eq (eval_properties config d.m_ast.properties d.scope)
          (Evaluates-Resolves (eval_properties-Evaluates config d.m_ast.properties d.scope))
          λ raw e₁. Ends-bind_eq (defaults_of raw) (defaults_of-Resolves raw) λ vs e₂.
            Ends-bind
              (merge_defaults-Resolves (resolve_propmap config ev f) vs empty (
                All-Fits (rank name) f (resolve_propmap config ev f) le h vs
                  (ranked name d raw vs found e₁ e₂)))
              λ merged _. returned tt

    resolve_propmap-Resolves :
        (f : ℕ) (v : Value) → Fits f v → Resolves (resolve_propmap config ev f v)
    unfolding resolve_propmap defaults_decl
    resolve_propmap-Resolves zero (str s) h = absurd (omega arith)
    resolve_propmap-Resolves zero _ h = absurd (omega arith)
    resolve_propmap-Resolves (suc f) (str s) h = elim (Option-cases (find s ev.decls)) [
      | inl e ↦ rw (defaults_decl-missing ev.decls s e) (raised tt)
      | inr (d, e) ↦
          rw (defaults_decl-found ev.decls s d e)
            (own_props-Resolves f s d e (omega arith) (resolve_propmap-Resolves f))
    ]
    resolve_propmap-Resolves (suc f) (list vs) h = raised tt
    resolve_propmap-Resolves (suc f) _ h = raised tt

-- If the defaults of the declared modules have no cycle, then `resolve` of a name returns a module or
-- raises an EvalError or a TypeError, whatever fuel above the name's rank the recursion is given: it
-- never meets the end of Python's stack.
pub resolve-Resolves :
    (config : Config) (ev : Evaluator) (rank : Text → ℕ)
    → IsRanked config ev rank
    → (f : ℕ) (name : Text) → rank name < f
    → Resolves (resolve config ev f name)
unfolding resolve
resolve-Resolves config ev rank ranked f name le = elim (Option-cases (find name ev.decls)) [
  | inl e ↦ rw (e, resolve) (raised tt)
  | inr (d, e) ↦
      rw (e, resolve)
        (Ends-bind
          (own_props-Resolves config ev rank ranked f name d e le
            (resolve_propmap-Resolves config ev rank ranked f))
          λ merged _. collapsed merged d)
]
  where
    collapsed :
        (merged : Dict) (d : Decl)
        → Resolves (
            collapse_selects config merged >>= λ c.
            ok (to_module name d.m_ast.module_type d.bp_dir c d.root_var))
    collapsed merged d =
        let (c, e, _) = collapse_selects-Collapses config merged in rw e (returned tt)

-- A module among whose own defaults its name comes first has no property map: at every fuel the
-- recursion ends in the RecursionError of the stack, and not in an EvalError.
pub resolve_propmap-cycle :
    (config : Config) (ev : Evaluator) (name : Text) (d : Decl) (raw : Dict) (vs : List Value)
    → find name ev.decls ≡ some d
    → eval_properties config d.m_ast.properties d.scope ≡ ok raw
    → defaults_of raw ≡ ok (str name ∷ vs)
    → (f : ℕ) → resolve_propmap config ev f (str name) ≡ err recursion_error
unfolding resolve_propmap own_props merge_defaults
resolve_propmap-cycle config ev name d raw vs found e₁ e₂ zero = refl
resolve_propmap-cycle config ev name d raw vs found e₁ e₂ (suc f) = rw (
  defaults_decl-found ev.decls name d found,
  e₁,
  e₂,
  resolve_propmap-cycle config ev name d raw vs found e₁ e₂ f,
)

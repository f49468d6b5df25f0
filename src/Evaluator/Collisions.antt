-- ===== src/Evaluator/Collisions.antt =====
-- tools/bp2cmake/bp2cmake/evaluator.py: modules of the same name in several files.
use dalvikvm_multiplatform.Common.{
  Bool, true, false, not, ◌&&◌, Option, none, some, List, [], ◌∷◌, ◌≡◌, ◌==◌, if◌then◌else◌, if_ind,
  text_eq, contains, Text, Assoc, find, store, find-store, Error, Result, ok, err, Ends, returned,
  raised, Ends-bind, Ends-map, arith, ap, ◌∙◌,
}
use dalvikvm_multiplatform.Lexer.{CharClass}
use dalvikvm_multiplatform.Ast
use dalvikvm_multiplatform.Ast.{modules, assignments, Statement}
use dalvikvm_multiplatform.Parser.{parse}
use dalvikvm_multiplatform.Values.{Dict, empty, is_true}
use dalvikvm_multiplatform.Config.{Config}
use dalvikvm_multiplatform.Evaluator.Modules.{
  Decl, Evaluator, cc_module_types, keeps_incumbent, name_key, module_name, declare, declare_all,
  build_scope, add_file,
}

-- Whether a module of a type to build is declared.
cc_decl : Option Decl → Bool
cc_decl none = false
cc_decl (some d) = contains d.m_ast.module_type cc_module_types

unfoldable pub has_cc : Assoc Decl → Text → Bool
unfolding cc_decl
has_cc decls name = cc_decl (find name decls)

-- Each name that has a module to build keeps one.
abbrev pub Keeps : Assoc Decl → Assoc Decl → Type 0
Keeps decls decls' = (name : Text) → has_cc decls name ≡ true → has_cc decls' name ≡ true

abbrev pub AnyError : Error → Type 0
AnyError e = Unit {0}

any_run : {A : Type 0} (r : Result A) → Ends AnyError (λ a. Unit {0}) r
any_run (ok a) = returned tt
any_run (err e) = raised tt

false-true : false ≡ true → ⊥
false-true h = cc

freed : (a b : Bool) → (a && not b) ≡ false → a ≡ true → b ≡ true
freed a b h k = ground arith

stored-Keeps :
    (config : Config) (decls : Assoc Decl) (key : Text) (new : Decl)
    → Keeps decls
        (if keeps_incumbent config (find key decls) new.m_ast then decls else store key new decls)
unfolding has_cc cc_decl keeps_incumbent
stored-Keeps config decls key new name h =
    if_ind (λ ds. cc_decl (find name ds) ≡ true) (keeps_incumbent config (find key decls) new.m_ast)
      (λ _. h)
      λ replaced. rw (find-store key name new decls) (
        if_ind (λ o. cc_decl o ≡ true) (key == name)
          (λ same.
            at_same (find key decls) replaced
              (ap (λ k. cc_decl (find k decls)) ((text_eq.beq_iff key name).0 same) ∙ h))
          (λ other. h))
  where
    at_same :
        (o : Option Decl)
        → keeps_incumbent config o new.m_ast ≡ false
        → cc_decl o ≡ true
        → cc_decl (some new) ≡ true
    at_same none r c = absurd (false-true c)
    at_same (some d) r c =
        freed (contains d.m_ast.module_type cc_module_types)
          (contains new.m_ast.module_type cc_module_types) r c

module _ (config : Config) (bp_dir root_var : Text) (scope : Dict) where
  declare-Keeps :
      (m : Ast.Module) (decls : Assoc Decl)
      → Ends AnyError (Keeps decls) (declare config bp_dir root_var scope m decls)
  unfolding declare
  declare-Keeps m decls = Ends-bind (any_run (module_name config m scope)) λ value _.
      if_ind (Ends AnyError (Keeps decls)) (is_true value)
        (λ _. Ends-bind (any_run (name_key value)) λ name _. returned (
          stored-Keeps config decls name
            (record { m_ast = m; bp_dir = bp_dir; scope = scope; root_var = root_var })))
        (λ _. returned (λ n h. h))

  declare_all-Keeps :
      (ms : List Ast.Module) (decls : Assoc Decl)
      → Ends AnyError (Keeps decls) (declare_all config bp_dir root_var scope ms decls)
  unfolding declare_all
  declare_all-Keeps [] decls = returned (λ n h. h)
  declare_all-Keeps (m ∷ ms) decls =
      Ends-bind (declare-Keeps m decls) λ decls₁ k.
        Ends-map (declare_all-Keeps ms decls₁) (λ decls₂ k₂ n h. k₂ n (k n h)) (λ x q. q)

-- Loading a file never replaces a module of a type to build by one of another type: each name that had
-- a module of such a type still has one when `add_file` returns.
pub add_file-Keeps :
    (config : Config) (cls : CharClass) (relpath : Text → Text → Text)
    (text bp_path source_root root_var : Text) (ev : Evaluator)
    → Ends AnyError
        (λ ev'. Keeps ev.decls ev'.decls)
        (add_file config cls relpath text bp_path source_root root_var ev)
unfolding add_file
add_file-Keeps config cls relpath text bp_path source_root root_var ev =
    Ends-bind (any_run (parse cls text)) λ statements _.
      Ends-bind (any_run (build_scope config (assignments statements) empty)) λ scope _.
        Ends-bind (declare_all-Keeps config _ _ scope (modules statements) ev.decls)
          λ decls k. returned k

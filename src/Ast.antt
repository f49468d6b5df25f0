-- ===== src/Ast.antt =====
-- tools/bp2cmake/bp2cmake/ast.py: the nodes that the parser makes of a Blueprint file, each with
-- the line where it stands. The line of a select case is that of its value, and is not stored.
use dalvikvm_multiplatform.Common.{
  ℕ, ℤ, Bool, Option, List, [], ◌∷◌, Text, none, some, if◌then◌else◌, ◌==◌, text_eq,
}

-- One entry of a case's key: a literal, a boolean, `any` or `default`.
pub data Pattern : Type 0 where
  literal : Text → Pattern
  boolean : Bool → Pattern
  any_value default_value : Pattern

-- A condition of a select: the function's name and its arguments.
pub record Condition : Type 0 where
  pub func : Text
  pub args : List Text

-- `Exprs`, `Entries` and `Cases` are the lists inside an expression.
mutual
  pub data Expr : Type 0 where
    string_lit : Text → (line : ℕ) → Expr
    bool_lit : Bool → (line : ℕ) → Expr
    int_lit : ℤ → (line : ℕ) → Expr
    var_ref : Text → (line : ℕ) → Expr
    list_expr : Exprs → (line : ℕ) → Expr
    map_expr : Entries → (line : ℕ) → Expr
    concat : Expr → Expr → (line : ℕ) → Expr
    select : List Condition → Cases → (line : ℕ) → Expr

  pub data Exprs : Type 0 where
    no_exprs : Exprs
    expr : Expr → Exprs → Exprs

  pub data Entries : Type 0 where
    no_entries : Entries
    entry : Text → Expr → Entries → Entries

  pub data Cases : Type 0 where
    no_cases : Cases
    case : List Pattern → Expr → (binding : Option Text) → Cases → Cases

-- `MapExpr.get`: the value of the first entry with the key.
unfoldable pub get : Text → Entries → Option Expr
get key no_entries = none
get key (entry k v es) = if k == key then some v else get key es

-- A module's property bag is a MapExpr with a line of its own.
pub record Module : Type 0 where
  pub module_type : Text
  pub properties : Entries
  pub properties_line : ℕ
  pub line : ℕ

pub record Assignment : Type 0 where
  pub name : Text
  pub value : Expr
  pub append : Bool
  pub line : ℕ

pub data Statement : Type 0 where
  assignment : Assignment → Statement
  module_decl : Module → Statement

-- `BlueprintFile.modules` and `BlueprintFile.assignments`, in the order of the file.
unfoldable pub modules : List Statement → List Module
modules [] = []
modules (assignment a ∷ ss) = modules ss
modules (module_decl m ∷ ss) = m ∷ modules ss

unfoldable pub assignments : List Statement → List Assignment
assignments [] = []
assignments (assignment a ∷ ss) = a ∷ assignments ss
assignments (module_decl m ∷ ss) = assignments ss

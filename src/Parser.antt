-- ===== src/Parser.antt =====
-- tools/bp2cmake/bp2cmake/parser.py: the recursive descent. `parse_operand` costs a unit of fuel for
-- each bracket that it enters, as Python's stack does, and `recursion_error` marks its end.
pub mod State
pub mod Selects
pub mod Consume
pub mod Patterns
pub mod Brackets
pub mod Total
use dalvikvm_multiplatform.Common.{
  ℕ, zero, suc, ◌+◌, ◌*◌, ◌≡◌, refl, ℤ, pos, neg_ℕ, Bool, true, false, Option, none, some, List, [],
  ◌∷◌, if◌then◌else◌, ◌==◌, nat_eq, text_eq, length, Text, codes, text_beq, expected_statement,
  expected_assignment, expected_value, value_error, recursion_error, Result, ok, err, ◌>>=◌,
}
use dalvikvm_multiplatform.Lexer.{
  CharClass, ascii, Kind, ident, string, number, lbrace, rbrace, lbrack, rbrack, lparen, rparen,
  colon, comma, plus, equals, plus_eq, eof, Token, tokenize,
}
use dalvikvm_multiplatform.Ast.{
  Pattern, literal, Expr, Exprs, Entries, Cases, string_lit, bool_lit, int_lit, var_ref, list_expr,
  map_expr, concat, select, no_exprs, expr, no_entries, entry, no_cases, case, Statement,
  assignment, module_decl,
}
use State.{kind_beq, cur, fail, advance, expect, accept, peek}
use Selects.{Parser, comma_list, parse_conditions, parse_case_patterns}

module _ (cls : CharClass) where
  -- The digits of a number token, most significant first.
  unfoldable pub digits_value : ℕ → Text → Option ℕ
  digits_value acc [] = some acc
  digits_value acc (c ∷ s) = elim (cls.decimal c) [
    | none ↦ none
    | some d ↦ digits_value (10 * acc + d) s
  ]

  unfoldable pub natural : Text → Result ℕ
  natural s = elim (digits_value 0 s) [ none ↦ err value_error | some n ↦ ok n ]

  -- `int(t.value)` of a number token.
  unfoldable pub int_value : Text → Result ℤ
  int_value [] = err value_error
  int_value (c ∷ s) =
      if c == b'-' then (do n ← natural s; ok (neg_ℕ n)) else (do n ← natural (c ∷ s); ok (pos n))

unfoldable pub to_exprs : List Expr → Exprs
to_exprs [] = no_exprs
to_exprs (e ∷ es) = expr e (to_exprs es)

unfoldable pub to_entries : List (Text × Expr) → Entries
to_entries [] = no_entries
to_entries ((k, v) ∷ es) = entry k v (to_entries es)

-- A case as `parse_select_cases` reads it.
pub record SelectCase : Type 0 where
  pub patterns : List Pattern
  pub value : Expr
  pub binding : Option Text

unfoldable pub to_cases : List SelectCase → Cases
to_cases [] = no_cases
to_cases (c ∷ cs) = case c.patterns c.value c.binding (to_cases cs)

-- The loop of `parse_expr`, with a bound for its rounds.
unfoldable pub plus_loop : ℕ → Parser Expr → Expr → Parser Expr
plus_loop zero operand left ts = err recursion_error
plus_loop (suc n) operand left ts =
    let more = do
      (op, ts₁) ← advance ts
      (right, ts₂) ← operand ts₁
      plus_loop n operand (concat left right op.line) ts₂
    in do t ← cur ts; if kind_beq t.kind plus then more else ok (left, ts)

-- `parse_expr`, over a parser for its operands.
unfoldable pub expr_with : Parser Expr → Parser Expr
expr_with operand ts = do (left, ts₁) ← operand ts; plus_loop (suc (length ts₁)) operand left ts₁

module _ (parse_expr : Parser Expr) where
  -- One entry of `parse_map`, and the whole with its line.
  unfoldable pub parse_entry : Parser (Text × Expr)
  parse_entry ts = do
    (key, ts₁) ← expect ident ts
    (_, ts₂) ← expect colon ts₁
    (value, ts₃) ← parse_expr ts₂
    ok ((key.value, value), ts₃)

  unfoldable pub parse_map : Parser (Entries × ℕ)
  parse_map ts = do
    (lb, ts₁) ← expect lbrace ts
    (entries, ts₂) ← comma_list rbrace parse_entry ts₁
    ok ((to_entries entries, lb.line), ts₂)

  unfoldable pub parse_list : Parser Expr
  parse_list ts = do
    (lb, ts₁) ← expect lbrack ts
    (items, ts₂) ← comma_list rbrack parse_expr ts₁
    ok (list_expr (to_exprs items) lb.line, ts₂)

  -- One round of `parse_select_cases`, and the whole.
  unfoldable pub parse_case : Parser SelectCase
  parse_case ts = do
    ((patterns, binding), ts₁) ← parse_case_patterns ts
    (_, ts₂) ← expect colon ts₁
    (value, ts₃) ← parse_expr ts₂
    ok (record { patterns = patterns; value = value; binding = binding }, ts₃)

  unfoldable pub parse_select_cases : Parser (List SelectCase)
  parse_select_cases ts = do (_, ts₁) ← expect lbrace ts; comma_list rbrace parse_case ts₁

  unfoldable pub parse_select : Parser Expr
  parse_select ts = do
    (kw, ts₁) ← expect ident ts
    (_, ts₂) ← expect lparen ts₁
    (conditions, ts₃) ← parse_conditions ts₂
    (_, ts₄) ← expect comma ts₃
    (cases, ts₅) ← parse_select_cases ts₄
    (_, ts₆) ← accept comma ts₅
    (_, ts₇) ← expect rparen ts₆
    ok (select conditions (to_cases cases) kw.line, ts₇)

  -- An identifier of `parse_operand`: a select, a boolean or a variable.
  unfoldable pub parse_ident : Token → Parser Expr
  parse_ident t ts =
      let plain = do
        (_, ts₁) ← advance ts
        ok (
          (if t.value == codes "true"
              then bool_lit true t.line
              else if t.value == codes "false"
              then bool_lit false t.line
              else var_ref t.value t.line),
          ts₁,
        )
      in if t.value == codes "select"
        then (do u ← peek ts; if kind_beq u.kind lparen then parse_select ts else plain)
        else plain

module _ (cls : CharClass) where
  -- The branches of `parse_operand` on the kind of the current token, over `parse_expr`.
  unfoldable pub operand_at : Kind → Parser Expr → Token → Parser Expr
  operand_at string inner t ts = do (_, ts₁) ← advance ts; ok (string_lit t.value t.line, ts₁)
  operand_at number inner t ts = do
    (_, ts₁) ← advance ts
    n ← int_value cls t.value
    ok (int_lit n t.line, ts₁)
  operand_at lbrack inner t ts = parse_list inner ts
  operand_at lbrace inner t ts = do
    ((entries, line), ts₁) ← parse_map inner ts
    ok (map_expr entries line, ts₁)
  operand_at ident inner t ts = parse_ident inner t ts
  operand_at _ inner t ts = fail expected_value t

  unfoldable pub parse_operand : ℕ → Parser Expr
  parse_operand zero ts = err recursion_error
  parse_operand (suc f) ts = do t ← cur ts; operand_at t.kind (expr_with (parse_operand f)) t ts

  unfoldable pub parse_expr : ℕ → Parser Expr
  parse_expr f = expr_with (parse_operand f)

  -- An assignment behind its name, over its operator.
  unfoldable pub parse_assignment : ℕ → Bool → Token → Parser Statement
  parse_assignment f append name_tok ts = do
    (_, ts₁) ← advance ts
    (value, ts₂) ← parse_expr f ts₁
    ok (
      assignment
          (record { name = name_tok.value; value = value; append = append; line = name_tok.line }),
      ts₂,
    )

  -- The branches of `parse_statement` on the kind of the token behind the identifier.
  unfoldable pub statement_at : Kind → ℕ → Token → Parser Statement
  statement_at equals f name_tok ts = parse_assignment f false name_tok ts
  statement_at plus_eq f name_tok ts = parse_assignment f true name_tok ts
  statement_at lbrace f name_tok ts = do
    ((entries, line), ts₁) ← parse_map (parse_expr f) ts
    ok (
      module_decl (record {
        module_type = name_tok.value;
        properties = entries;
        properties_line = line;
        line = name_tok.line;
      }),
      ts₁,
    )
  statement_at _ f name_tok ts = fail expected_assignment name_tok

  unfoldable pub parse_statement : ℕ → Parser Statement
  parse_statement f ts = do
    name_tok ← cur ts
    let rest = do (_, ts₁) ← advance ts; op ← cur ts₁; statement_at op.kind f name_tok ts₁
    if kind_beq name_tok.kind ident then rest else fail expected_statement name_tok

  -- The loop of `parse_file`, with a bound for its rounds.
  unfoldable pub parse_statements : ℕ → ℕ → List Token → Result (List Statement)
  parse_statements zero f ts = err recursion_error
  parse_statements (suc n) f ts =
      let more = do (s, ts₁) ← parse_statement f ts; ss ← parse_statements n f ts₁; ok (s ∷ ss)
      in do t ← cur ts; if kind_beq t.kind eof then ok [] else more

  unfoldable pub parse_file : List Token → Result (List Statement)
  parse_file ts = parse_statements (suc (length ts)) (suc (length ts)) ts

  -- `parse(text, filename)`
  unfoldable pub parse : Text → Result (List Statement)
  parse text = do ts ← tokenize cls text; parse_file ts

-- ===== src/Parser/Selects.antt =====
-- tools/bp2cmake/bp2cmake/parser.py: the conditions and the patterns of a select.
use dalvikvm_multiplatform.Common.{
  ℕ, zero, suc, true, false, Option, none, some, List, [], ◌∷◌, if◌then◌else◌, ◌==◌, text_eq, map,
  length, Text, codes, expected_pattern, recursion_error, Result, ok, err, ◌>>=◌,
}
use dalvikvm_multiplatform.Lexer.{ident, string, lparen, rparen, comma, at_sign, Kind, Token}
use dalvikvm_multiplatform.Ast.{Pattern, literal, boolean, any_value, default_value, Condition}
use dalvikvm_multiplatform.Parser.State.{kind_beq, cur, fail, advance, expect, accept}

abbrev pub Parser {ℓ} : Type ℓ → Type ℓ
Parser A = List Token → Result (A × List Token)

-- `while self.cur.kind != close: items.append(item()); if not self.accept("COMMA"): break`, the
-- loop of every bracketed list. A round takes a token, so the tokens left bound the rounds;
-- `recursion_error` marks that the bound was too low.
unfoldable pub comma_loop {ℓ} : {A : Type ℓ} → ℕ → Kind → Parser A → Parser (List A)
comma_loop zero close item ts = err recursion_error
comma_loop (suc n) close item ts =
    let more = do
      (a, ts₁) ← item ts
      (again, ts₂) ← accept comma ts₁
      let later = comma_loop n close item ts₂
      (rest, ts₃) ← if again then later else ok ([], ts₂)
      ok (a ∷ rest, ts₃)
    in do t ← cur ts; if kind_beq t.kind close then ok ([], ts) else more

-- The loop, and the closing bracket behind it.
unfoldable pub comma_list {ℓ} : {A : Type ℓ} → Kind → Parser A → Parser (List A)
comma_list close item ts = do
  (items, ts₁) ← comma_loop (suc (length ts)) close item ts
  (_, ts₂) ← expect close ts₁
  ok (items, ts₂)

unfoldable pub parse_string : Parser Text
parse_string ts = do (t, ts₁) ← expect string ts; ok (t.value, ts₁)

-- `parse_condition`
unfoldable pub parse_condition : Parser Condition
parse_condition ts = do
  (fn, ts₁) ← expect ident ts
  (_, ts₂) ← expect lparen ts₁
  (args, ts₃) ← comma_list rparen parse_string ts₂
  ok (record { func = fn.value; args = args }, ts₃)

-- The conditions of `parse_select`: one, or a tuple of them.
unfoldable pub parse_conditions : Parser (List Condition)
parse_conditions ts = do
  t ← cur ts
  if kind_beq t.kind lparen
      then (do (_, ts₁) ← advance ts; comma_list rparen parse_condition ts₁)
      else (do (c, ts₁) ← parse_condition ts; ok (c ∷ [], ts₁))

-- The pattern that a bare identifier stands for.
unfoldable pub ident_pattern : Text → Pattern
ident_pattern v =
    if v == codes "true"
    then boolean true
    else if v == codes "false"
    then boolean false
    else if v == codes "any"
    then any_value
    else if v == codes "default"
    then default_value
    else literal v

-- `@ name` behind an identifier.
unfoldable pub parse_binding : Parser (Option Text)
parse_binding ts = do
  t ← cur ts
  if kind_beq t.kind at_sign
      then (do (_, ts₁) ← advance ts; (b, ts₂) ← expect ident ts₁; ok (some b.value, ts₂))
      else ok (none, ts)

-- The branches of `parse_single_pattern` on the kind of the current token.
unfoldable pub pattern_at : Kind → Token → Parser (Pattern × Option Text)
pattern_at string t ts = do (_, ts₁) ← advance ts; ok ((literal t.value, none), ts₁)
pattern_at ident t ts = do
  (_, ts₁) ← advance ts
  (b, ts₂) ← parse_binding ts₁
  ok ((ident_pattern t.value, b), ts₂)
pattern_at _ t ts = fail expected_pattern t

-- `parse_single_pattern`
unfoldable pub parse_single_pattern : Parser (Pattern × Option Text)
parse_single_pattern ts = do t ← cur ts; pattern_at t.kind t ts

-- The last name that was bound.
unfoldable pub last_binding : List (Pattern × Option Text) → Option Text
last_binding [] = none
last_binding ((p, b) ∷ ps) = elim (last_binding ps) [ none ↦ b | some x ↦ some x ]

-- `parse_case_patterns`
unfoldable pub parse_case_patterns : Parser (List Pattern × Option Text)
parse_case_patterns ts = do
  t ← cur ts
  if kind_beq t.kind lparen
      then (do
        (_, ts₁) ← advance ts
        (ps, ts₂) ← comma_list rparen parse_single_pattern ts₁
        ok ((map (λ p. p.0) ps, last_binding ps), ts₂))
      else (do ((p, b), ts₁) ← parse_single_pattern ts; ok ((p ∷ [], b), ts₁))

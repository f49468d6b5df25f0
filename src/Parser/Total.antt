-- ===== src/Parser/Total.antt =====
-- tools/bp2cmake/bp2cmake/parser.py: every method takes tokens or fails with a ParseError. A bracket
-- is a token, so a unit of fuel for each token is enough.
use dalvikvm_multiplatform.Common.{
  ℕ, zero, suc, ◌≤◌, ◌<◌, ◌≡◌, ◌≢◌, ◌⊎◌, inl, inr, refl, Bool, true, false, List, [], ◌∷◌, if_ind,
  length, arith, Text, Error, value_error, Ends, returned, raised, Ends-bind, Ends-map, ok, err,
  ◌>>=◌, ◌==◌, nat_eq, Option, none, some,
}
use dalvikvm_multiplatform.Lexer.{
  CharClass, Kind, eof, Token, ident, string, number, lbrace, lbrack, equals, plus_eq,
}
use dalvikvm_multiplatform.Lexer.Scans.{IsLexError}
use dalvikvm_multiplatform.Lexer.Total.{EndsInEof, tokenize-Tokens}
use dalvikvm_multiplatform.Ast.{Expr}
use dalvikvm_multiplatform.Parser.{
  digits_value, natural, int_value, expr_with, parse_map, operand_at, parse_operand, parse_expr,
  parse_assignment, statement_at, parse_statement, parse_statements, parse_file, parse,
}
use dalvikvm_multiplatform.Parser.State.{kind_beq, cur, fail}
use dalvikvm_multiplatform.Parser.Selects.{Parser}
use dalvikvm_multiplatform.Parser.Consume.{IsParseFailure, Left, Takes, kind-ne-eof}
use dalvikvm_multiplatform.Parser.Patterns.{
  Takes-then, Keeps-then, Keeps-ok, Takes-le, advance-then, ne-eof,
}
use dalvikvm_multiplatform.Parser.Brackets.{
  expr_with-Takes, parse_map-Takes, parse_list-Takes, parse_ident-Left,
}

module _ (cls : CharClass) where
  natural-Ends : (s : Text) → Ends IsParseFailure (λ _. Unit {0}) (natural cls s)
  unfolding natural
  natural-Ends s = read (digits_value cls 0 s)
    where
      read :
          (o : Option ℕ)
          → Ends IsParseFailure (λ _. Unit {0}) (elim o [ none ↦ err value_error | some n ↦ ok n ])
      read none = raised tt
      read (some n) = returned tt

  int_value-Ends : (s : Text) → Ends IsParseFailure (λ _. Unit {0}) (int_value cls s)
  unfolding int_value
  int_value-Ends [] = raised tt
  int_value-Ends (c ∷ s) =
      if_ind (Ends IsParseFailure (λ _. Unit {0})) (c == b'-')
        (λ _. Ends-bind (natural-Ends s) λ n _. returned tt)
        (λ _. Ends-bind (natural-Ends (c ∷ s)) λ n _. returned tt)

  module _ (n : ℕ) (inner : Parser Expr) (takes : Takes n inner) where
    operand_at-Left :
        (k : Kind) (t : Token) (ts : List Token) (m : ℕ)
        → t.kind ≡ k
        → EndsInEof (t ∷ ts)
        → length (t ∷ ts) ≤ suc m
        → suc m ≤ suc n
        → Ends IsParseFailure (Left m) (operand_at cls k inner t (t ∷ ts))
    unfolding operand_at fail
    operand_at-Left string t ts m e h l b =
        advance-then (suc n) t _ (ne-eof n t string (λ q. cc) e) (Keeps-ok (suc n) _) ts m h l b
    operand_at-Left number t ts m e h l b =
        advance-then (suc n) t _ (ne-eof n t number (λ q. cc) e)
          (λ ts₁ m₁ h₁ l₁ b₁.
            Ends-bind (int_value-Ends t.value) λ v _. returned (record { bound = l₁; ends = h₁ }))
          ts m h l b
    operand_at-Left lbrack t ts m e h l b = parse_list-Takes n inner takes (t ∷ ts) m h l b
    operand_at-Left lbrace t ts m e h l b =
        Takes-then (suc n) (parse_map inner) _ (parse_map-Takes n inner takes)
          (λ r. Keeps-ok (suc n) _) (t ∷ ts) m h l b
    operand_at-Left ident t ts m e h l b =
        parse_ident-Left n inner takes t ts m (ne-eof n t ident (λ q. cc) e) h l b
    operand_at-Left _ t ts m e h l b = raised tt

  parse_operand-Takes : (f : ℕ) → Takes f (parse_operand cls f)
  unfolding parse_operand cur
  parse_operand-Takes zero ts m h l b = elim b [ ]
  parse_operand-Takes (suc f) [] m h l b = elim h [ ]
  parse_operand-Takes (suc f) (t ∷ ts) m h l b =
      operand_at-Left f (expr_with (parse_operand cls f))
        (expr_with-Takes f (parse_operand cls f) (parse_operand-Takes f)) t.kind t ts m refl h l b

  parse_expr-Takes : (f : ℕ) → Takes f (parse_expr cls f)
  unfolding parse_expr
  parse_expr-Takes f = expr_with-Takes f (parse_operand cls f) (parse_operand-Takes f)

  module _ (f : ℕ) where
    parse_assignment-Left :
        (append : Bool) (name_tok t : Token) (ts : List Token) (m : ℕ)
        → t.kind ≢ eof
        → EndsInEof (t ∷ ts)
        → length (t ∷ ts) ≤ suc m
        → suc m ≤ f
        → Ends IsParseFailure (Left m) (parse_assignment cls f append name_tok (t ∷ ts))
    unfolding parse_assignment
    parse_assignment-Left append name_tok t ts m k h l b =
        advance-then f t _ k
          (Keeps-then f (parse_expr cls f) _ (parse_expr-Takes f) λ v. Keeps-ok f _) ts m h l b

    statement_at-Left :
        (k : Kind) (name_tok t : Token) (ts : List Token) (m : ℕ)
        → t.kind ≡ k
        → EndsInEof (t ∷ ts)
        → length (t ∷ ts) ≤ suc m
        → suc m ≤ f
        → Ends IsParseFailure (Left m) (statement_at cls k f name_tok (t ∷ ts))
    unfolding statement_at fail
    statement_at-Left equals name_tok t ts m e h l b =
        parse_assignment-Left false name_tok t ts m (ne-eof f t equals (λ q. cc) e) h l b
    statement_at-Left plus_eq name_tok t ts m e h l b =
        parse_assignment-Left true name_tok t ts m (ne-eof f t plus_eq (λ q. cc) e) h l b
    statement_at-Left lbrace name_tok t ts m e h l b =
        Takes-then f (parse_map (parse_expr cls f)) _
          (Takes-le (suc f) f (parse_map (parse_expr cls f)) (omega arith)
            (parse_map-Takes f (parse_expr cls f) (parse_expr-Takes f)))
          (λ r. Keeps-ok f _) (t ∷ ts) m h l b
    statement_at-Left _ name_tok t ts m e h l b = raised tt

    -- The token behind the name is there: the name is not the last token.
    statement_rest-Left :
        (name_tok : Token) (ts : List Token) (m : ℕ)
        → EndsInEof ts
        → length ts ≤ m
        → suc m ≤ f
        → Ends IsParseFailure (Left m) (cur ts >>= λ op. statement_at cls op.kind f name_tok ts)
    unfolding cur
    statement_rest-Left name_tok [] m h l b = elim h [ ]
    statement_rest-Left name_tok (t ∷ ts) m h l b =
        statement_at-Left t.kind name_tok t ts m refl h (omega arith) b

    parse_statement-Takes : Takes f (parse_statement cls f)
    unfolding parse_statement cur
    parse_statement-Takes [] m h l b = elim h [ ]
    parse_statement-Takes (t ∷ ts) m h l b =
        if_ind (Ends IsParseFailure (Left m)) (kind_beq t.kind ident)
          (λ e.
            advance-then f t _ (kind-ne-eof t ident (λ q. cc) e) (statement_rest-Left t) ts m h l b)
          (λ _. unfold fail in raised tt)

    parse_statements-Ends :
        (rounds : ℕ) (ts : List Token)
        → EndsInEof ts
        → length ts < rounds
        → length ts ≤ f
        → Ends IsParseFailure (λ _. Unit {0}) (parse_statements cls rounds f ts)
    unfolding parse_statements cur
    parse_statements-Ends zero ts h r l = absurd (omega arith)
    parse_statements-Ends (suc rounds) [] h r l = elim h [ ]
    parse_statements-Ends (suc rounds) (t ∷ ts) h r l =
        if_ind (Ends IsParseFailure (λ _. Unit {0})) (kind_beq t.kind eof) (λ _. returned tt)
          λ _.
            Ends-bind (parse_statement-Takes (t ∷ ts) (length ts) h (omega arith) (omega arith))
              λ (s, ts₁) left.
                Ends-bind
                  (parse_statements-Ends rounds ts₁ left.ends (omega (arith, left.bound))
                    (omega (arith, left.bound)))
                  λ ss _. returned tt

-- On every list of tokens that ends in the end of the file, `parse_file` returns or fails with a
-- ParseError or the ValueError of `int`: it reads no token outside the list, and a unit of fuel for
-- each token is enough.
pub parse_file-Ends :
    (cls : CharClass) (ts : List Token)
    → EndsInEof ts
    → Ends IsParseFailure (λ _. Unit {0}) (parse_file cls ts)
unfolding parse_file
parse_file-Ends cls ts h =
    parse_statements-Ends cls (suc (length ts)) (suc (length ts)) ts h (omega arith) (omega arith)

-- What `parse` may raise.
abbrev pub IsSyntaxError : Error → Type 0
IsSyntaxError e = IsLexError e ⊎ IsParseFailure e

-- For every text, `parse` returns, or it raises a LexError, a ParseError or the ValueError of `int`:
-- no other error, and neither the tokenizer nor the parser runs out of its fuel.
pub parse-Ends :
    (cls : CharClass) (text : Text) → Ends IsSyntaxError (λ _. Unit {0}) (parse cls text)
unfolding parse
parse-Ends cls text =
    Ends-bind (Ends-map (tokenize-Tokens cls text) (λ ts h. h) (λ e h. inl h))
      λ ts h. Ends-map (parse_file-Ends cls ts h.ends) (λ ss h. h) (λ e h. inr h)

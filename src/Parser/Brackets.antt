-- ===== src/Parser/Brackets.antt =====
-- tools/bp2cmake/bp2cmake/parser.py: the methods for lists, maps, selects and sums take tokens if the
-- parsers inside them do.
use dalvikvm_multiplatform.Common.{
  ℕ, zero, suc, ◌≤◌, ◌<◌, ◌≢◌, Bool, List, [], ◌∷◌, if_ind, length, arith, Ends, returned,
  Ends-bind, Ends-map, Result, ok, ◌>>=◌, ◌==◌, text_eq, codes,
}
use dalvikvm_multiplatform.Lexer.{
  Kind, eof, comma, Token, ident, lbrace, rbrace, lbrack, rbrack, lparen, rparen, colon, plus,
}
use dalvikvm_multiplatform.Lexer.Total.{EndsInEof}
use dalvikvm_multiplatform.Ast.{Expr, concat}
use dalvikvm_multiplatform.Parser.{
  plus_loop, expr_with, parse_entry, parse_map, parse_list, parse_case, parse_select_cases,
  parse_select, parse_ident,
}
use dalvikvm_multiplatform.Parser.State.{kind_beq, cur, advance, expect, accept, peek}
use dalvikvm_multiplatform.Parser.Selects.{
  Parser, comma_list, parse_conditions, parse_case_patterns,
}
use dalvikvm_multiplatform.Parser.Consume.{
  IsParseFailure, Left, Takes, kind-ne-eof, expect-Takes, accept-Left, advance-Left,
}
use dalvikvm_multiplatform.Parser.Patterns.{
  Keeps, Takes-then, Keeps-then, Keeps-ok, Takes-Keeps, comma_list-Takes, advance-then,
  parse_conditions-Takes, parse_case_patterns-Takes,
}

-- The tokens behind an opening bracket are one fewer.
opened {ℓ κ} :
    {A : Type ℓ} {B : Type κ} (n : ℕ) (p : Parser A) (f : A × List Token → Result (B × List Token))
    → Takes (suc n) p
    → ((a : A) → Takes n (λ ts. f (a, ts)))
    → Takes (suc n) (λ ts. p ts >>= f)
opened {A} n p f tp tf ts m h l b =
    Ends-bind (tp ts m h l b) (λ (a, ts₁) left. inside a ts₁ m left b)
  where
    inside :
        (a : A) (ts₁ : List Token) (m : ℕ)
        → Left m (a, ts₁)
        → suc m ≤ suc n
        → Ends IsParseFailure (Left m) (f (a, ts₁))
    inside a [] m left b = elim left.ends [ ]
    inside a (t ∷ ts₁) zero left b = absurd (omega (arith, left.bound))
    inside a (t ∷ ts₁) (suc m) left b =
        Ends-map (tf a (t ∷ ts₁) m left.ends left.bound (omega arith))
          (λ r after. record { bound = omega (arith, after.bound); ends = after.ends }) (λ _ q. q)

module _ (n : ℕ) (operand : Parser Expr) (takes : Takes n operand) where
  plus_loop-Left :
      (rounds : ℕ) (left : Expr) (ts : List Token)
      → EndsInEof ts
      → length ts < rounds
      → length ts ≤ n
      → Ends IsParseFailure (Left (length ts)) (plus_loop rounds operand left ts)
  unfolding plus_loop cur
  plus_loop-Left zero left ts h r l = absurd (omega arith)
  plus_loop-Left (suc rounds) left [] h r l = elim h [ ]
  plus_loop-Left (suc rounds) left (t ∷ ts) h r l =
      if_ind (Ends IsParseFailure (Left (length (t ∷ ts)))) (kind_beq t.kind plus)
        (λ e.
          Ends-bind (advance-Left t ts (length ts) (kind-ne-eof t plus (λ q. cc) e) h (omega arith))
            λ (op, ts₁) left₁.
              Ends-bind
                (Takes-Keeps n operand takes ts₁ (length ts) left₁.ends left₁.bound (omega arith))
                λ (right, ts₂) left₂.
                  Ends-map
                    (plus_loop-Left rounds (concat left right op.line) ts₂ left₂.ends
                      (omega (arith, left₂.bound)) (omega (arith, left₂.bound)))
                    (λ r after. record {
                      bound = omega (arith, after.bound, left₂.bound);
                      ends = after.ends;
                    })
                    (λ _ q. q))
        (λ _. returned (record { bound = omega arith; ends = h }))

  pub expr_with-Takes : Takes n (expr_with operand)
  unfolding expr_with
  expr_with-Takes ts m h l b = Ends-bind (takes ts m h l b) λ (left, ts₁) left₁.
      Ends-map
        (plus_loop-Left (suc (length ts₁)) left ts₁ left₁.ends (omega arith)
          (omega (arith, left₁.bound)))
        (λ r after. record { bound = omega (arith, after.bound, left₁.bound); ends = after.ends })
        (λ _ q. q)

module _ (n : ℕ) (inner : Parser Expr) (takes : Takes n inner) where
  parse_entry-Takes : Takes n (parse_entry inner)
  unfolding parse_entry
  parse_entry-Takes = Takes-then n (expect ident) _ (expect-Takes ident n (λ q. cc)) λ key.
      Keeps-then n (expect colon) _ (expect-Takes colon n (λ q. cc))
        λ _. Keeps-then n inner _ takes λ v. Keeps-ok n _

  pub parse_map-Takes : Takes (suc n) (parse_map inner)
  unfolding parse_map
  parse_map-Takes = opened n (expect lbrace) _ (expect-Takes lbrace (suc n) (λ q. cc)) λ lb.
      Takes-then n (comma_list rbrace (parse_entry inner)) _
        (comma_list-Takes n rbrace (parse_entry inner) (λ q. cc) parse_entry-Takes)
        λ es. Keeps-ok n _

  pub parse_list-Takes : Takes (suc n) (parse_list inner)
  unfolding parse_list
  parse_list-Takes = opened n (expect lbrack) _ (expect-Takes lbrack (suc n) (λ q. cc)) λ lb.
      Takes-then n (comma_list rbrack inner) _ (comma_list-Takes n rbrack inner (λ q. cc) takes)
        λ es. Keeps-ok n _

  parse_case-Takes : Takes n (parse_case inner)
  unfolding parse_case
  parse_case-Takes = Takes-then n parse_case_patterns _ (parse_case_patterns-Takes n) λ pb.
      Keeps-then n (expect colon) _ (expect-Takes colon n (λ q. cc))
        λ _. Keeps-then n inner _ takes λ v. Keeps-ok n _

  parse_select_cases-Takes : Takes n (parse_select_cases inner)
  unfolding parse_select_cases
  parse_select_cases-Takes = Takes-then n (expect lbrace) _ (expect-Takes lbrace n (λ q. cc)) λ _.
      Takes-Keeps n (comma_list rbrace (parse_case inner))
        (comma_list-Takes n rbrace (parse_case inner) (λ q. cc) parse_case-Takes)

  -- The comma behind the cases may be absent.
  accept-then {ℓ} :
      {A : Type ℓ} (kind : Kind) (f : Bool × List Token → Result (A × List Token))
      → kind ≢ eof
      → ((a : Bool) → Keeps n (λ ts. f (a, ts)))
      → Keeps n (λ ts. accept kind ts >>= f)
  accept-then kind f k kf ts m h l b =
      Ends-bind (accept-Left kind ts m k h l) λ (a, ts₁) left. kf a ts₁ m left.ends left.bound b

  parse_select-Takes : Takes (suc n) (parse_select inner)
  unfolding parse_select
  parse_select-Takes = opened n (expect ident) _ (expect-Takes ident (suc n) (λ q. cc)) λ kw.
      Takes-then n (expect lparen) _ (expect-Takes lparen n (λ q. cc)) λ _.
        Keeps-then n parse_conditions _ (parse_conditions-Takes n) λ cs.
          Keeps-then n (expect comma) _ (expect-Takes comma n (λ q. cc)) λ _.
            Keeps-then n (parse_select_cases inner) _ parse_select_cases-Takes λ cases.
              accept-then comma _ (λ q. cc)
                λ _.
                  Keeps-then n (expect rparen) _ (expect-Takes rparen n (λ q. cc)) λ _. Keeps-ok n _

  -- An identifier is not the last token, so there is one behind it to look at.
  pub parse_ident-Left :
      (t : Token) (ts : List Token) (m : ℕ)
      → t.kind ≢ eof
      → EndsInEof (t ∷ ts)
      → length (t ∷ ts) ≤ suc m
      → suc m ≤ suc n
      → Ends IsParseFailure (Left m) (parse_ident inner t (t ∷ ts))
  unfolding parse_ident peek
  parse_ident-Left t [] m k h l b = absurd (k h)
  parse_ident-Left t (u ∷ ts) m k h l b =
      if_ind (Ends IsParseFailure (Left m)) (t.value == codes "select")
        (λ _.
          if_ind (Ends IsParseFailure (Left m)) (kind_beq u.kind lparen)
            (λ _. parse_select-Takes (t ∷ u ∷ ts) m h l b) (λ _. plain _))
        (λ _. plain _)
    where
      plain :
          (e : Expr)
          → Ends IsParseFailure (Left m) (advance (t ∷ u ∷ ts) >>= λ (_, ts₁). ok (e, ts₁))
      plain e = advance-then (suc n) t _ k (Keeps-ok (suc n) e) (u ∷ ts) m h l b

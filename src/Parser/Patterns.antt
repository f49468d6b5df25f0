-- ===== src/Parser/Patterns.antt =====
-- tools/bp2cmake/bp2cmake/parser.py: how parsers that take tokens are put together, and that the
-- conditions and the patterns of a select do so.
use dalvikvm_multiplatform.Common.{
  ℕ, suc, ◌≤◌, ◌≡◌, ◌≢◌, refl, some, List, [], ◌∷◌, if_ind, length, arith, Ends, returned, raised,
  Ends-bind, Result, ok, ◌>>=◌, text_eq,
}
use dalvikvm_multiplatform.Lexer.{Kind, eof, Token, ident, string, lparen, rparen, at_sign}
use dalvikvm_multiplatform.Lexer.Total.{EndsInEof}
use dalvikvm_multiplatform.Parser.State.{kind_beq, cur, fail, advance, expect}
use dalvikvm_multiplatform.Parser.Selects.{
  Parser, comma_list, parse_string, parse_condition, parse_conditions, parse_binding, pattern_at,
  parse_single_pattern, parse_case_patterns,
}
use dalvikvm_multiplatform.Parser.Consume.{
  IsParseFailure, Left, Takes, tail-EndsInEof, kind_beq-false, advance-Left, kind-ne-eof,
  expect-Takes, comma_list-Left,
}

-- A parser behind the first token keeps the bound.
abbrev pub Keeps {ℓ} : {A : Type ℓ} → ℕ → Parser A → Type ℓ
Keeps n p =
    (ts : List Token) (m : ℕ)
    → EndsInEof ts
    → length ts ≤ m
    → suc m ≤ n
    → Ends IsParseFailure (Left m) (p ts)

module _ {ℓ κ} {A : Type ℓ} {B : Type κ} (n : ℕ) where
  pub Takes-then :
      (p : Parser A) (f : A × List Token → Result (B × List Token))
      → Takes n p
      → ((a : A) → Keeps n (λ ts. f (a, ts)))
      → Takes n (λ ts. p ts >>= f)
  Takes-then p f tp kf ts m h l b =
      Ends-bind (tp ts m h l b) λ (a, ts₁) left. kf a ts₁ m left.ends left.bound b

  pub Keeps-then :
      (p : Parser A) (f : A × List Token → Result (B × List Token))
      → Takes n p
      → ((a : A) → Keeps n (λ ts. f (a, ts)))
      → Keeps n (λ ts. p ts >>= f)
  Keeps-then p f tp kf ts m h l b =
      Ends-bind (tp ts m h (omega arith) b) λ (a, ts₁) left. kf a ts₁ m left.ends left.bound b

module _ {ℓ} {A : Type ℓ} (n : ℕ) where
  pub Keeps-ok : (a : A) → Keeps n (λ ts. ok (a, ts))
  Keeps-ok a ts m h l b = returned (record { bound = l; ends = h })

  pub Takes-Keeps : (p : Parser A) → Takes n p → Keeps n p
  Takes-Keeps p tp ts m h l b = tp ts m h (omega arith) b

  pub Takes-le : (k : ℕ) (p : Parser A) → k ≤ n → Takes n p → Takes k p
  Takes-le k p e tp ts m h l b = tp ts m h l (omega arith)

  pub comma_list-Takes :
      (close : Kind) (item : Parser A)
      → close ≢ eof
      → Takes n item
      → Takes n (comma_list close item)
  comma_list-Takes close item k ti ts m h l b = comma_list-Left n close item ti ts m k h l b

module _ (n : ℕ) where
  parse_string-Takes : Takes n parse_string
  unfolding parse_string
  parse_string-Takes =
      Takes-then n (expect string) _ (expect-Takes string n (λ e. cc)) λ t. Keeps-ok n t.value

  pub parse_condition-Takes : Takes n parse_condition
  unfolding parse_condition
  parse_condition-Takes = Takes-then n (expect ident) _ (expect-Takes ident n (λ e. cc)) λ fn.
      Keeps-then n (expect lparen) _ (expect-Takes lparen n (λ e. cc)) λ _.
        Keeps-then n (comma_list rparen parse_string) _
          (comma_list-Takes n rparen parse_string (λ e. cc) parse_string-Takes) λ args. Keeps-ok n _

  pub parse_conditions-Takes : Takes n parse_conditions
  unfolding parse_conditions cur
  parse_conditions-Takes [] m h l b = elim h [ ]
  parse_conditions-Takes (t ∷ ts) m h l b =
      if_ind (Ends IsParseFailure (Left m)) (kind_beq t.kind lparen)
        (λ e.
          Ends-bind (advance-Left t ts m (kind-ne-eof t lparen (λ e. cc) e) h (omega arith))
            λ (_, ts₁) left.
              comma_list-Takes n rparen parse_condition (λ e. cc) parse_condition-Takes ts₁ m
                left.ends (omega (arith, left.bound)) b)
        (λ _.
          Takes-then n parse_condition _ parse_condition-Takes (λ c. Keeps-ok n (c ∷ [])) (t ∷ ts) m
            h l b)

  parse_binding-Keeps : Keeps n parse_binding
  unfolding parse_binding cur
  parse_binding-Keeps [] m h l b = elim h [ ]
  parse_binding-Keeps (t ∷ ts) m h l b =
      if_ind (Ends IsParseFailure (Left m)) (kind_beq t.kind at_sign)
        (λ e.
          Ends-bind (advance-Left t ts m (kind-ne-eof t at_sign (λ e. cc) e) h (omega arith))
            λ (_, ts₁) left.
              Keeps-then n (expect ident) _ (expect-Takes ident n (λ e. cc))
                (λ c. Keeps-ok n (some c.value)) ts₁ m left.ends left.bound b)
        (λ _. returned (record { bound = l; ends = h }))

  -- The first token is taken, and `p` goes on behind it.
  pub advance-then {ℓ} :
      {A : Type ℓ} (t : Token) (f : Token × List Token → Result (A × List Token))
      → t.kind ≢ eof
      → Keeps n (λ ts. f (t, ts))
      → (ts : List Token) (m : ℕ) → EndsInEof (t ∷ ts)
      → length (t ∷ ts) ≤ suc m
      → suc m ≤ n
      → Ends IsParseFailure (Left m) (advance (t ∷ ts) >>= f)
  unfolding advance
  advance-then t f no_eof kf ts m h l b =
      rw (kind_beq-false t.kind no_eof) (kf ts m (tail-EndsInEof t ts h no_eof) (omega arith) b)

  pub ne-eof : (t : Token) (k : Kind) → k ≢ eof → t.kind ≡ k → t.kind ≢ eof
  ne-eof t k n e = rw e n

  pattern_at-Left :
      (k : Kind) (t : Token) (ts : List Token) (m : ℕ)
      → t.kind ≡ k
      → EndsInEof (t ∷ ts)
      → length (t ∷ ts) ≤ suc m
      → suc m ≤ n
      → Ends IsParseFailure (Left m) (pattern_at k t (t ∷ ts))
  unfolding pattern_at fail
  pattern_at-Left string t ts m e h l b =
      advance-then t _ (ne-eof t string (λ q. cc) e) (Keeps-ok n _) ts m h l b
  pattern_at-Left ident t ts m e h l b =
      advance-then t _ (ne-eof t ident (λ q. cc) e)
        (λ ts₁ m₁ h₁ l₁ b₁.
          Ends-bind (parse_binding-Keeps ts₁ m₁ h₁ l₁ b₁)
            λ r left. returned (record { bound = left.bound; ends = left.ends }))
        ts m h l b
  pattern_at-Left _ t ts m e h l b = raised tt

  pub parse_single_pattern-Takes : Takes n parse_single_pattern
  unfolding parse_single_pattern cur
  parse_single_pattern-Takes [] m h l b = elim h [ ]
  parse_single_pattern-Takes (t ∷ ts) m h l b = pattern_at-Left t.kind t ts m refl h l b

  pub parse_case_patterns-Takes : Takes n parse_case_patterns
  unfolding parse_case_patterns cur
  parse_case_patterns-Takes [] m h l b = elim h [ ]
  parse_case_patterns-Takes (t ∷ ts) m h l b =
      if_ind (Ends IsParseFailure (Left m)) (kind_beq t.kind lparen)
        (λ e.
          advance-then t _ (kind-ne-eof t lparen (λ q. cc) e)
            (Keeps-then n (comma_list rparen parse_single_pattern) _
              (comma_list-Takes n rparen parse_single_pattern (λ q. cc) parse_single_pattern-Takes)
              (λ ps. Keeps-ok n _))
            ts m h l b)
        (λ _.
          Takes-then n parse_single_pattern _ parse_single_pattern-Takes (λ p. Keeps-ok n _)
            (t ∷ ts) m h l b)

-- ===== src/Parser/State.antt =====
-- tools/bp2cmake/bp2cmake/parser.py: the token helpers of `Parser`. The list `toks` from `pos` on is
-- the state, and a method returns its result with the tokens that are left.
use dalvikvm_multiplatform.Common.{
  ℕ, ◌≡◌, refl, ap, ◌∙◌, sym, Bool, true, false, List, [], ◌∷◌, if◌then◌else◌, nat_beq, nat_beq_iff,
  ParseFault, expected_token, parse_error, index_error, Result, ok, err, ◌>>=◌,
}
use dalvikvm_multiplatform.Lexer.{
  Kind, ident, string, number, lbrace, rbrace, lbrack, rbrack, lparen, rparen, colon, comma, plus,
  equals, plus_eq, at_sign, eof, Token,
}

abbrev kind_number : Kind → ℕ
kind_number ident = 0
kind_number string = 1
kind_number number = 2
kind_number lbrace = 3
kind_number rbrace = 4
kind_number lbrack = 5
kind_number rbrack = 6
kind_number lparen = 7
kind_number rparen = 8
kind_number colon = 9
kind_number comma = 10
kind_number plus = 11
kind_number equals = 12
kind_number plus_eq = 13
kind_number at_sign = 14
kind_number eof = 15

-- Kinds are compared by their numbers.
unfoldable pub kind_beq : Kind → Kind → Bool
kind_beq a b = nat_beq (kind_number a) (kind_number b)

kind_of : ℕ → Kind
kind_of n =
    if nat_beq n 0
    then ident
    else if nat_beq n 1
    then string
    else if nat_beq n 2
    then number
    else if nat_beq n 3
    then lbrace
    else if nat_beq n 4
    then rbrace
    else if nat_beq n 5
    then lbrack
    else if nat_beq n 6
    then rbrack
    else if nat_beq n 7
    then lparen
    else if nat_beq n 8
    then rparen
    else if nat_beq n 9
    then colon
    else if nat_beq n 10
    then comma
    else if nat_beq n 11
    then plus
    else if nat_beq n 12
    then equals
    else if nat_beq n 13
    then plus_eq
    else if nat_beq n 14
    then at_sign
    else eof

kind_of-kind_number : (k : Kind) → kind_of (kind_number k) ≡ k
unfolding kind_of
kind_of-kind_number ident = refl
kind_of-kind_number _ = refl

pub kind_beq→eq : (a b : Kind) → kind_beq a b ≡ true → a ≡ b
unfolding kind_beq
kind_beq→eq a b h =
    sym (kind_of-kind_number a) ∙ ap kind_of ((nat_beq_iff _ _).0 h) ∙ kind_of-kind_number b

pub kind_beq_self : (a : Kind) → kind_beq a a ≡ true
unfolding kind_beq
kind_beq_self a = (nat_beq_iff _ _).1 refl

-- `self.cur`
unfoldable pub cur : List Token → Result Token
cur [] = err index_error
cur (t ∷ ts) = ok t

-- `self._err(msg, tok)`
unfoldable pub fail {ℓ} : {A : Type ℓ} → ParseFault → Token → Result A
fail fault t = err (parse_error fault t.line t.col)

-- `self.advance()`: it stays in front of the end of the file.
unfoldable pub advance : List Token → Result (Token × List Token)
advance [] = err index_error
advance (t ∷ ts) = ok (t, (if kind_beq t.kind eof then t ∷ ts else ts))

-- `self.expect(kind)`
unfoldable pub expect : Kind → List Token → Result (Token × List Token)
expect kind ts = do t ← cur ts; if kind_beq t.kind kind then advance ts else fail expected_token t

-- `self.accept(kind)`, with whether there was such a token.
unfoldable pub accept : Kind → List Token → Result (Bool × List Token)
accept kind ts = do
  t ← cur ts
  if kind_beq t.kind kind then (do (_, rest) ← advance ts; ok (true, rest)) else ok (false, ts)

-- `self.toks[self.pos + 1]`
unfoldable pub peek : List Token → Result Token
peek [] = err index_error
peek (t ∷ []) = err index_error
peek (t ∷ u ∷ ts) = ok u

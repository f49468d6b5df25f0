-- ===== src/Lexer/Scans.antt =====
-- tools/bp2cmake/bp2cmake/lexer.py: what one round of the loop of `tokenize` does.
use dalvikvm_multiplatform.Common.{
  ℕ, suc, ◌<◌, ◌≡◌, ◌≢◌, refl, ap, ◌⊎◌, inl, inr, Bool, true, false, ◌&&◌, ◌||◌, Option, none, some,
  [], ◌∷◌, ◌++◌, if_ind, ◌==◌, nat_eq, nat_beq_iff, length, length-append, Text, arith, Error,
  lex_error, Ends, returned, raised, Result, ok, err, unterminated_comment, unterminated_string,
  and-left, and-right, Option-cases,
}
use dalvikvm_multiplatform.Lexer.{
  CharClass, Kind, string, eof, ident, number, plus_eq, Token, token, Place, Cursor, punct, head_is,
  move, adv, skip_line, skip_block, read_string, is_ident_start, is_ident_part, emit,
  scan_block_comment, scan_string, scan_word, scan_punct, scan, is_space,
}
use dalvikvm_multiplatform.Lexer.Places.{
  From, From-cons, From-trans, From-le, adv-From, adv-rest, skip_line-From, Found, BlockEnds,
  skip_block-BlockEnds, decode, StringEnds, read_string-StringEnds, take_while_prefix,
}

-- The text `t` begins with a string literal, and the token is its value.
pub record Quoted (tok : Token) (t : Text) : Type 0 where
  pub is_string : tok.kind ≡ string
  pub raw : Text
  pub more : Text
  pub split : t ≡ b'"' ∷ raw ++ (b'"' ∷ more)
  pub value : tok.value ≡ decode raw

-- The text `t` begins with the token's own characters, at least one.
pub record Verbatim (tok : Token) (t : Text) : Type 0 where
  pub no_string : tok.kind ≢ string
  pub more : Text
  pub split : t ≡ tok.value ++ more
  pub nonempty : tok.value ≢ []

-- The token is read at the place `p`, where the text `t` begins.
pub record Reads (t : Text) (p : Place) (tok : Token) : Type 0 where
  pub line : tok.line ≡ p.line
  pub col : tok.col ≡ p.col
  pub no_eof : tok.kind ≢ eof
  pub spelled : Quoted tok t ⊎ Verbatim tok t

-- A round goes over one character at least, and over what its token is read from.
pub record Scanned (t : Text) (p : Place) (r : Option Token × Cursor) : Type 0 where
  pub from : From t p r.1
  pub progress : length r.1.rest < length t
  pub read : Found (Reads t p) r.0

abbrev pub IsLexError : Error → Type 0
IsLexError (lex_error _ _ _) = Unit
IsLexError _ = ⊥

abbrev pub Scans : Text → Place → Result (Option Token × Cursor) → Type 0
Scans t p = Ends IsLexError (Scanned t p)

shorter : (x : ℕ) (s t : Text) → length t < length (x ∷ s ++ t)
shorter x s t = omega (arith, length-append s t)

-- A round that goes over `x ∷ s`.
passed :
    (x : ℕ) (s t : Text) (p : Place) (o : Option Token)
    → Found (Reads (x ∷ s ++ t) p) o
    → Scanned (x ∷ s ++ t) p (o, adv (suc (length s)) (x ∷ s ++ t) p)
passed x s t p o h = record {
  from = adv-From (x ∷ s) t p;
  progress = rw (adv-rest (x ∷ s) t p) (shorter x s t);
  read = h;
}

pub emit-Scanned :
    (kind : Kind) (x : ℕ) (s t : Text) (p : Place)
    → kind ≢ string
    → kind ≢ eof
    → Scanned (x ∷ s ++ t) p (emit kind (x ∷ s) (x ∷ s ++ t) p)
unfolding emit
emit-Scanned kind x s t p no_string no_eof = passed x s t p (some (token kind (x ∷ s) p)) record {
  line = refl;
  col = refl;
  no_eof = no_eof;
  spelled = inr (record { no_string = no_string; more = t; split = refl; nonempty = λ e. cc });
}

From-shorter :
    (x : ℕ) (t : Text) (p : Place) (c : Cursor)
    → From t (move x p) c
    → length c.rest < length (x ∷ t)
From-shorter x t p c f = omega (arith, From-le f)

skip_line_step :
    (x : ℕ) (t : Text) (p : Place)
    → (x == b'\n') ≡ false
    → skip_line (x ∷ t) p ≡ skip_line t (move x p)
unfolding skip_line
skip_line_step x t p h = rw h

skip_line-Scanned :
    (x : ℕ) (t : Text) (p : Place)
    → (x == b'\n') ≡ false
    → Scanned (x ∷ t) p (none, skip_line (x ∷ t) p)
skip_line-Scanned x t p h = rw (skip_line_step x t p h) (record {
  from = From-cons x (skip_line-From t (move x p));
  progress = From-shorter x t p _ (skip_line-From t (move x p));
  read = tt;
})

-- Two characters more are passed behind what stands in `c`.
then_passed :
    (t : Text) (p : Place) (c : Cursor) (s r : Text)
    → From t p c
    → c.rest ≡ s ++ r
    → From t p (adv (length s) c.rest c.place)
then_passed t p c s r f e = From-trans f (rw e (adv-From s r c.place))

scan_block_comment-Scans :
    (x y : ℕ) (t : Text) (p : Place) → Scans (x ∷ y ∷ t) p (scan_block_comment (x ∷ y ∷ t) p)
unfolding scan_block_comment
scan_block_comment-Scans x y t p = closed (skip_block t q) (skip_block-BlockEnds t q)
  where
    q : Place
    q = move y (move x p)

    closed :
        (o : Option Cursor)
        → Found (BlockEnds t q) o
        → Scans (x ∷ y ∷ t) p (elim o [
          | none ↦ err (lex_error unterminated_comment p.line p.col)
          | some c ↦ ok (none, adv 2 c.rest c.place)
        ])
    closed none h = raised tt
    closed (some c) (f, (r, e)) =
        let all = then_passed t q c (b'*' ∷ b'/' ∷ []) r f e in
        returned (record {
          from = From-cons x (From-cons y all);
          progress = omega (arith, From-le all);
          read = tt;
        })

scan_string-Scans : (t : Text) (p : Place) → Scans (b'"' ∷ t) p (scan_string (b'"' ∷ t) p)
unfolding scan_string
scan_string-Scans t p = closed (read_string t q) (read_string-StringEnds t q)
  where
    q : Place
    q = move b'"' p

    closed :
        (o : Option (Text × Cursor))
        → Found (StringEnds t q) o
        → Scans (b'"' ∷ t) p (elim o [
          | none ↦ err (lex_error unterminated_string p.line p.col)
          | some (s, c) ↦ ok (some (token string s p), adv 1 c.rest c.place)
        ])
    closed none h = raised tt
    closed (some (s, c)) h =
        let inside : From t q c = record {
          read = h.raw;
          split = rw h.stopped h.split;
          reached = h.reached;
        } in
        let all = then_passed t q c (b'"' ∷ []) h.more inside h.stopped in
        returned (record {
          from = From-cons b'"' all;
          progress = omega (arith, From-le all);
          read = record {
            line = refl;
            col = refl;
            no_eof = λ e. cc;
            spelled = inl (record {
              is_string = refl;
              raw = h.raw;
              more = h.more;
              split = ap (λ s. b'"' ∷ s) h.split;
              value = h.value;
            });
          };
        })

punct_kind : (c : ℕ) (kind : Kind) → punct c ≡ some kind → (kind ≢ string) × (kind ≢ eof)
unfolding punct
punct_kind c kind h = ground arith

module _ (cls : CharClass) where
  ident_part_of_start : (c : ℕ) → is_ident_start cls c ≡ true → is_ident_part cls c ≡ true
  unfolding is_ident_start is_ident_part
  ident_part_of_start c h = ground (arith, cls.alpha_alnum c)

  -- The lexeme begins with the current character.
  word-Scanned :
      (kind : Kind) (c : ℕ) (s r : Text) (p : Place)
      → kind ≢ string
      → kind ≢ eof
      → ((more : Text) × (r ≡ s ++ more))
      → Scanned (c ∷ r) p (emit kind (c ∷ s) (c ∷ r) p)
  word-Scanned kind c s r p no_string no_eof (more, e) =
      rw e (emit-Scanned kind c s more p no_string no_eof)

  scan_word-Scans : (c : ℕ) (r : Text) (p : Place) → Scans (c ∷ r) p (scan_word cls c r p)
  unfolding scan_word
  scan_word-Scans c r p =
      if_ind (Scans (c ∷ r) p) (cls.is_digit c || c == b'-' && head_is cls.is_digit r)
        (λ _.
          returned
            (word-Scanned number c _ r p (λ e. cc) (λ e. cc) (take_while_prefix cls.is_digit r)))
        λ _.
          if_ind (Scans (c ∷ r) p) (is_ident_start cls c)
            (λ h. rw (ident_part_of_start c h) (
              returned (
                word-Scanned ident c _ r p (λ e. cc) (λ e. cc)
                  (take_while_prefix (is_ident_part cls) r))))
            (λ _. raised tt)

  scan_punct-Scans : (c : ℕ) (r : Text) (p : Place) → Scans (c ∷ r) p (scan_punct cls c r p)
  unfolding scan_punct
  scan_punct-Scans c r p = elim (Option-cases (punct c)) [
    | inl e ↦ rw (e, scan_punct) (scan_word-Scans c r p)
    | inr (kind, e) ↦
        let (no_string, no_eof) = punct_kind c kind e in
        rw (e, scan_punct) (returned (emit-Scanned kind c [] r p no_string no_eof))
  ]

  space-Scanned : (c : ℕ) (r : Text) (p : Place) → Scanned (c ∷ r) p (none, adv 1 (c ∷ r) p)
  space-Scanned c r p = passed c [] r p none tt

  slash_no_newline : (c : ℕ) (b : Bool) → (c == b'/' && b) ≡ true → (c == b'\n') ≡ false
  slash_no_newline c b h = ground arith

  block-Scans :
      (c : ℕ) (r : Text) (p : Place)
      → head_is (λ d. d == b'*') r ≡ true
      → Scans (c ∷ r) p (scan_block_comment (c ∷ r) p)
  block-Scans c [] p h = cc
  block-Scans c (d ∷ r) p h = scan_block_comment-Scans c d r p

  plus_eq-Scans :
      (c : ℕ) (r : Text) (p : Place)
      → (c == b'+' && head_is (λ d. d == b'=') r) ≡ true
      → Scans (c ∷ r) p (ok (emit plus_eq (b'+' ∷ b'=' ∷ []) (c ∷ r) p))
  plus_eq-Scans c [] p h = ground arith
  plus_eq-Scans c (d ∷ r) p h =
      let is_plus = (nat_beq_iff c b'+').0 (and-left (c == b'+') (d == b'=') h) in
      let is_equals = (nat_beq_iff d b'=').0 (and-right (c == b'+') (d == b'=') h) in
      rw (is_plus, is_equals)
        (returned (emit-Scanned plus_eq b'+' (b'=' ∷ []) r p (λ e. cc) (λ e. cc)))

  -- Every round goes over its characters with the place kept, and its token stands where it says.
  pub scan-Scans : (c : ℕ) (r : Text) (p : Place) → Scans (c ∷ r) p (scan cls c r p)
  unfolding scan
  scan-Scans c r p =
      if_ind (Scans (c ∷ r) p) (is_space c) (λ _. returned (space-Scanned c r p))
        λ _.
          if_ind (Scans (c ∷ r) p) (c == b'/' && head_is (λ d. d == b'/') r)
            (λ h. returned (skip_line-Scanned c r p (slash_no_newline c _ h)))
            λ _.
              if_ind (Scans (c ∷ r) p) (c == b'/' && head_is (λ d. d == b'*') r)
                (λ h. block-Scans c r p (and-right _ _ h))
                λ _.
                  if_ind (Scans (c ∷ r) p) (c == b'"')
                    (λ h. rw ((nat_beq_iff c b'"').0 h) (scan_string-Scans r p))
                    λ _.
                      if_ind (Scans (c ∷ r) p) (c == b'+' && head_is (λ d. d == b'=') r)
                        (plus_eq-Scans c r p) (λ _. scan_punct-Scans c r p)

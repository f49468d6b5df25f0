-- ===== src/Lexer/Total.antt =====
-- tools/bp2cmake/bp2cmake/lexer.py: the whole of `tokenize`. Each round shortens the text, so a
-- round for each character and one for the end are enough.
use dalvikvm_multiplatform.Common.{
  ℕ, zero, suc, ◌<◌, ◌≡◌, ◌≢◌, refl, ap, ◌∙◌, ◌⊎◌, inl, inr, Option, none, some, List, [], ◌∷◌,
  ◌++◌, length, Text, arith, All, Ends, returned, Ends-bind,
}
use dalvikvm_multiplatform.Lexer.{
  CharClass, eof, Token, token, Place, cursor, scan_all, tokenize, start, keep,
}
use dalvikvm_multiplatform.Lexer.Places.{From, From-here, From-trans, Found, place_after}
use dalvikvm_multiplatform.Lexer.Scans.{Quoted, Verbatim, Reads, IsLexError, scan-Scans}

-- The token at the end of the text.
pub record Ending (tok : Token) (t : Text) : Type 0 where
  pub is_eof : tok.kind ≡ eof
  pub nothing_left : t ≡ []

-- The token stands in the text where its line and column say, and is what the text has there.
pub record Stands (text : Text) (tok : Token) : Type 0 where
  pub before : Text
  pub behind : Text
  pub split : text ≡ before ++ behind
  pub line : tok.line ≡ (place_after before start).line
  pub col : tok.col ≡ (place_after before start).col
  pub spelled : Quoted tok behind ⊎ Verbatim tok behind ⊎ Ending tok behind

-- The last token, and no other, is the end of the file.
abbrev pub EndsInEof : List Token → Type 0
EndsInEof [] = ⊥
EndsInEof (t ∷ []) = t.kind ≡ eof
EndsInEof (t ∷ u ∷ ts) = (t.kind ≢ eof) × EndsInEof (u ∷ ts)

pub record Tokens (text : Text) (ts : List Token) : Type 0 where
  pub stand : All (Stands text) ts
  pub ends : EndsInEof ts

EndsInEof-cons : (t : Token) (ts : List Token) → t.kind ≢ eof → EndsInEof ts → EndsInEof (t ∷ ts)
EndsInEof-cons t [] n h = elim h [ ]
EndsInEof-cons t (u ∷ ts) n h = (n, h)

Reads-Stands :
    (text t : Text) (p : Place) (tok : Token)
    → From text start (cursor t p)
    → Reads t p tok
    → Stands text tok
Reads-Stands text t p tok f r = record {
  before = f.read;
  behind = t;
  split = f.split;
  line = r.line ∙ ap (λ q. q.line) f.reached;
  col = r.col ∙ ap (λ q. q.col) f.reached;
  spelled = elim r.spelled [ inl q ↦ inl q | inr v ↦ inr (inl v) ];
}

eof-Stands :
    (text : Text) (p : Place) → From text start (cursor [] p) → Stands text (token eof [] p)
eof-Stands text p f = record {
  before = f.read;
  behind = [];
  split = f.split;
  line = ap (λ q. q.line) f.reached;
  col = ap (λ q. q.col) f.reached;
  spelled = inr (inr (record { is_eof = refl; nothing_left = refl }));
}

keep-Tokens :
    (text t : Text) (p : Place) (o : Option Token) (ts : List Token)
    → From text start (cursor t p)
    → Found (Reads t p) o
    → Tokens text ts
    → Tokens text (keep o ts)
keep-Tokens text t p none ts f r h = h
keep-Tokens text t p (some tok) ts f r h = record {
  stand = (Reads-Stands text t p tok f r, h.stand);
  ends = EndsInEof-cons tok ts r.no_eof h.ends;
}

module _ (cls : CharClass) (text : Text) where
  scan_all-Tokens :
      (fuel : ℕ) (t : Text) (p : Place)
      → length t < fuel
      → From text start (cursor t p)
      → Ends IsLexError (Tokens text) (scan_all cls fuel t p)
  unfolding scan_all
  scan_all-Tokens zero t p h f = absurd (omega arith)
  scan_all-Tokens (suc fuel) [] p h f =
      returned (record { stand = (eof-Stands text p f, tt); ends = refl })
  scan_all-Tokens (suc fuel) (c ∷ r) p h f = Ends-bind (scan-Scans cls c r p) λ (o, after) s.
      Ends-bind
        (scan_all-Tokens fuel after.rest after.place (omega (arith, s.progress))
          (From-trans f s.from))
        λ ts k. returned (keep-Tokens text (c ∷ r) p o ts f s.read k)

-- For every text, `tokenize` raises a LexError, or it returns tokens each of which stands in the
-- text at its own line and column and spells what the text has there (of a string the decoded
-- characters between its quotes), the last one and no other being the end of the file.
pub tokenize-Tokens :
    (cls : CharClass) (text : Text) → Ends IsLexError (Tokens text) (tokenize cls text)
unfolding tokenize
tokenize-Tokens cls text =
    scan_all-Tokens cls text (suc (length text)) text start (omega arith) (From-here text start)

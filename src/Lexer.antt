-- ===== src/Lexer.antt =====
-- tools/bp2cmake/bp2cmake/lexer.py: the tokenizer for Blueprint files.
-- The variable `i` of `tokenize` is the text from `i` on, and `line` and `col` are a `Place`.
-- `scan` is one round of the outer loop, and each inner loop is a recursion on the text left.
mod Chars
pub mod Places
pub mod Scans
pub mod Total
pub mod Strings
pub use Chars.*
use dalvikvm_multiplatform.Common.{
  ◌≡◌, refl, ℕ, zero, suc, ◌+◌, Bool, true, false, ◌&&◌, ◌||◌, Option, none, some, List, [], ◌∷◌,
  if◌then◌else◌, ◌==◌, nat_eq, length, Text, codes, LexFault, unterminated_comment,
  unterminated_string, unexpected_character, lex_error, recursion_error, Result, ok, err, ◌>>=◌,
}

pub data Kind : Type 0 where
  ident string number lbrace rbrace lbrack rbrack lparen rparen colon comma plus equals plus_eq :
      Kind
  at_sign eof : Kind

pub record Token : Type 0 where
  pub kind : Kind
  pub value : Text
  pub line : ℕ
  pub col : ℕ

pub record Place : Type 0 where
  pub line : ℕ
  pub col : ℕ

abbrev pub token : Kind → Text → Place → Token
token kind value p = record { kind = kind; value = value; line = p.line; col = p.col }

pub record Cursor : Type 0 where
  pub rest : Text
  pub place : Place

abbrev pub cursor : Text → Place → Cursor
cursor rest place = record { rest = rest; place = place }

-- The table _PUNCT.
unfoldable pub punct : ℕ → Option Kind
punct ch =
    if ch == b'{'
    then some lbrace
    else if ch == b'}'
    then some rbrace
    else if ch == b'['
    then some lbrack
    else if ch == b']'
    then some rbrack
    else if ch == b'('
    then some lparen
    else if ch == b')'
    then some rparen
    else if ch == b':'
    then some colon
    else if ch == b','
    then some comma
    else if ch == b'+'
    then some plus
    else if ch == b'='
    then some equals
    else if ch == b'@'
    then some at_sign
    else none

-- The character behind the current one satisfies `test`: `i + 1 < n and test(text[i + 1])`.
abbrev pub head_is : (ℕ → Bool) → Text → Bool
head_is test [] = false
head_is test (c ∷ _) = test c

-- One round of the loop in `adv`, at a character and at the end of the text.
unfoldable pub move : ℕ → Place → Place
move c p =
    if c == b'\n'
    then record { line = p.line + 1; col = 1 }
    else record { line = p.line; col = p.col + 1 }

-- `adv(count)`
unfoldable pub adv : ℕ → Text → Place → Cursor
unfolding move
adv zero t p = cursor t p
adv (suc k) [] p = adv k [] (record { line = p.line; col = p.col + 1 })
adv (suc k) (c ∷ t) p = adv k t (move c p)

-- The loop of a line comment: `while i < n and text[i] != "\n"`.
unfoldable pub skip_line : Text → Place → Cursor
unfolding move
skip_line [] p = cursor [] p
skip_line (c ∷ t) p = if c == b'\n' then cursor (c ∷ t) p else skip_line t (move c p)

-- The loop of a block comment up to the closing mark, and `none` at the end of the text.
unfoldable pub skip_block : Text → Place → Option Cursor
unfolding move
skip_block [] p = none
skip_block (c ∷ t) p =
    if c == b'*' && head_is (λ d. d == b'/') t
    then some (cursor (c ∷ t) p)
    else skip_block t (move c p)

-- `mapping.get(nxt, nxt)`
unfoldable pub unescape : ℕ → ℕ
unescape c = if c == b'n' then b'\n' else if c == b't' then b'\t' else c

abbrev pub prepend : ℕ → Option (Text × Cursor) → Option (Text × Cursor)
prepend c none = none
prepend c (some (s, after)) = some (c ∷ s, after)

-- The loop of a string: the characters read and the cursor at the closing quote, or `none` at the
-- end of the text. A backslash that is the last character stands for itself.
unfoldable pub read_string : Text → Place → Option (Text × Cursor)
unfolding move unescape
read_string [] p = none
read_string (c ∷ []) p = if c == b'"' then some ([], cursor (c ∷ []) p) else none
read_string (c ∷ d ∷ t) p =
    let escaped = prepend (unescape d) (read_string t (move d (move c p))) in
    let plain = prepend c (read_string (d ∷ t) (move c p)) in
    if c == b'"' then some ([], cursor (c ∷ d ∷ t) p) else if c == b'\\' then escaped else plain

-- The characters from `j` on that pass the test of a `while` loop.
unfoldable pub take_while : (ℕ → Bool) → Text → Text
take_while test [] = []
take_while test (c ∷ t) = if test c then c ∷ take_while test t else []

unfoldable pub is_space : ℕ → Bool
is_space c = c == b' ' || c == b'\t' || c == b'\r' || c == b'\n'

abbrev pub keep : Option Token → List Token → List Token
keep none ts = ts
keep (some t) ts = t ∷ ts

abbrev pub start : Place
start = record { line = 1; col = 1 }

-- A token whose text is at hand: it is stored, and `adv` goes over it.
unfoldable pub emit : Kind → Text → Text → Place → Option Token × Cursor
unfolding adv
emit kind value t p = (some (token kind value p), adv (length value) t p)

unfoldable pub scan_block_comment : Text → Place → Result (Option Token × Cursor)
unfolding adv skip_block
scan_block_comment t p =
    let opened = adv 2 t p in
    elim (skip_block opened.rest opened.place) [
      | none ↦ err (lex_error unterminated_comment p.line p.col)
      | some c ↦ ok (none, adv 2 c.rest c.place)
    ]

unfoldable pub scan_string : Text → Place → Result (Option Token × Cursor)
unfolding adv read_string
scan_string t p =
    let opened = adv 1 t p in
    elim (read_string opened.rest opened.place) [
      | none ↦ err (lex_error unterminated_string p.line p.col)
      | some (s, c) ↦ ok (some (token string s p), adv 1 c.rest c.place)
    ]

module _ (cls : CharClass) where
  open cls use {is_alpha, is_digit, is_alnum}

  unfoldable pub is_ident_start : ℕ → Bool
  is_ident_start c = is_alpha c || c == b'_'

  unfoldable pub is_ident_part : ℕ → Bool
  is_ident_part c = is_alnum c || c == b'_' || c == b'.' || c == b'-'

  -- Numbers and identifiers, and the error.
  unfoldable pub scan_word : ℕ → Text → Place → Result (Option Token × Cursor)
  unfolding is_ident_start is_ident_part emit take_while
  scan_word ch r p =
      if is_digit ch || ch == b'-' && head_is is_digit r
      then ok (emit number (ch ∷ take_while is_digit r) (ch ∷ r) p)
      else if is_ident_start ch
      then ok (emit ident (take_while is_ident_part (ch ∷ r)) (ch ∷ r) p)
      else err (lex_error (unexpected_character ch) p.line p.col)

  unfoldable pub scan_punct : ℕ → Text → Place → Result (Option Token × Cursor)
  unfolding punct emit scan_word
  scan_punct ch r p = elim (punct ch) [
    | some kind ↦ ok (emit kind (ch ∷ []) (ch ∷ r) p)
    | none ↦ scan_word ch r p
  ]

  -- One round of the outer loop, at the character `ch` with `r` behind it.
  unfoldable pub scan : ℕ → Text → Place → Result (Option Token × Cursor)
  unfolding is_space adv skip_line scan_block_comment scan_string scan_punct emit
  scan ch r p =
      if is_space ch
      then ok (none, adv 1 (ch ∷ r) p)
      else if ch == b'/' && head_is (λ c. c == b'/') r
      then ok (none, skip_line (ch ∷ r) p)
      else if ch == b'/' && head_is (λ c. c == b'*') r
      then scan_block_comment (ch ∷ r) p
      else if ch == b'"'
      then scan_string (ch ∷ r) p
      else if ch == b'+' && head_is (λ c. c == b'=') r
      then ok (emit plus_eq (b'+' ∷ b'=' ∷ []) (ch ∷ r) p)
      else scan_punct ch r p

  -- The outer loop. Each round costs a unit of fuel; `recursion_error` marks that it ran out.
  unfoldable pub scan_all : ℕ → Text → Place → Result (List Token)
  unfolding scan
  scan_all zero t p = err recursion_error
  scan_all (suc f) [] p = ok (token eof [] p ∷ [])
  scan_all (suc f) (ch ∷ r) p = do
    (t, after) ← scan ch r p
    ts ← scan_all f after.rest after.place
    ok (keep t ts)

  unfoldable pub tokenize : Text → Result (List Token)
  unfolding scan_all
  tokenize text = scan_all (suc (length text)) text start

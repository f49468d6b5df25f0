-- ===== src/Lexer/Strings.antt =====
-- tools/bp2cmake/bp2cmake/lexer.py: a string literal that was written with its escapes reads back.
use dalvikvm_multiplatform.Common.{
  ℕ, ◌≡◌, ◌≢◌, refl, false, some, [], ◌∷◌, ◌++◌, append_assoc, if_ind, ap, sym, ◌∙◌, ok, suc,
  if◌then◌else◌, ◌==◌, nat_eq, nat_beq_iff, Text,
}
use dalvikvm_multiplatform.Lexer.{
  CharClass, string, eof, Token, token, start, scan_string, scan, scan_all, tokenize, Place, cursor,
  move, unescape, prepend, read_string,
}
use dalvikvm_multiplatform.Lexer.Places.{place_after, place_after-append}

-- How a character is written inside quotes.
unfoldable pub escape_char : ℕ → Text
escape_char c =
    if c == b'\\'
    then b'\\' ∷ b'\\' ∷ []
    else if c == b'"'
    then b'\\' ∷ b'"' ∷ []
    else if c == b'\n'
    then b'\\' ∷ b'n' ∷ []
    else if c == b'\t'
    then b'\\' ∷ b't' ∷ []
    else c ∷ []

unfoldable pub escape : Text → Text
unfolding escape_char
escape [] = []
escape (c ∷ s) = escape_char c ++ escape s

read_string_plain :
    (c : ℕ) (t : Text) (p : Place)
    → (c == b'"') ≡ false
    → (c == b'\\') ≡ false
    → t ≢ []
    → read_string (c ∷ t) p ≡ prepend c (read_string t (move c p))
unfolding read_string
read_string_plain c [] p q b n = absurd (n refl)
read_string_plain c (d ∷ t) p q b n = rw (q, b)

-- One written character is read as itself, in front of what follows it.
abbrev ReadsChar : ℕ → Text → Type 0
ReadsChar c w =
    (t : Text) (p : Place)
    → t ≢ []
    → read_string (w ++ t) p ≡ prepend c (read_string t (place_after w p))

escaped-ReadsChar : (c d : ℕ) → unescape d ≡ c → ReadsChar c (b'\\' ∷ d ∷ [])
unfolding read_string place_after
escaped-ReadsChar c d e t p n = ap (λ x. prepend x (read_string t (move d (move b'\\' p)))) e

escape_char-ReadsChar : (c : ℕ) → ReadsChar c (escape_char c)
unfolding escape_char unescape
escape_char-ReadsChar c =
    if_ind (ReadsChar c) (c == b'\\')
      (λ h. rw ((nat_beq_iff c b'\\').0 h) (escaped-ReadsChar b'\\' b'\\' refl))
      λ no_slash.
        if_ind (ReadsChar c) (c == b'"')
          (λ h. rw ((nat_beq_iff c b'"').0 h) (escaped-ReadsChar b'"' b'"' refl))
          λ no_quote.
            if_ind (ReadsChar c) (c == b'\n')
              (λ h. rw ((nat_beq_iff c b'\n').0 h) (escaped-ReadsChar b'\n' b'n' refl))
              λ _.
                if_ind (ReadsChar c) (c == b'\t')
                  (λ h. rw ((nat_beq_iff c b'\t').0 h) (escaped-ReadsChar b'\t' b't' refl))
                  λ _. λ t p n. unfold place_after in read_string_plain c t p no_quote no_slash n

append-ne-nil : (s : Text) (c : ℕ) (t : Text) → s ++ (c ∷ t) ≢ []
append-ne-nil [] c t e = cc
append-ne-nil (x ∷ s) c t e = cc

read_string-close :
    (rest : Text) (p : Place) → read_string (b'"' ∷ rest) p ≡ some ([], cursor (b'"' ∷ rest) p)
unfolding read_string
read_string-close [] p = refl
read_string-close (c ∷ rest) p = refl

read_string-escape :
    (s rest : Text) (p : Place)
    → read_string (escape s ++ (b'"' ∷ rest)) p
      ≡ some (s, cursor (b'"' ∷ rest) (place_after (escape s) p))
unfolding escape
read_string-escape [] rest p = unfold place_after in read_string-close rest p
read_string-escape (c ∷ s) rest p =
    let q = place_after (escape_char c) p in
    let more = escape s ++ (b'"' ∷ rest) in
    ap (λ t. read_string t p) (append_assoc (escape_char c) (escape s) (b'"' ∷ rest))
    ∙ escape_char-ReadsChar c more p (append-ne-nil (escape s) b'"' rest)
    ∙ ap (prepend c) (read_string-escape s rest q)
    ∙ ap (λ r. some (c ∷ s, cursor (b'"' ∷ rest) r))
        (sym (place_after-append (escape_char c) (escape s) p))

-- The literal with the value `s`.
unfoldable pub quote : Text → Text
unfolding escape
quote s = b'"' ∷ (escape s ++ (b'"' ∷ []))

scan_string-quote :
    (s : Text) (p : Place)
    → scan_string (quote s) p ≡ ok (some (token string s p), cursor [] (place_after (quote s) p))
unfolding scan_string quote place_after
scan_string-quote s p =
    rw (read_string-escape s [] (move b'"' p), scan_string)
      (ap (λ r. ok (some (token string s p), cursor [] r))
        (sym (place_after-append (escape s) (b'"' ∷ []) (move b'"' p))))

scan-quote : (cls : CharClass) (t : Text) (p : Place) → scan cls b'"' t p ≡ scan_string (b'"' ∷ t) p
unfolding scan
scan-quote cls t p = refl

scan_all-one :
    (cls : CharClass) (f c : ℕ) (r : Text) (p q : Place) (tok : Token)
    → scan cls c r p ≡ ok (some tok, cursor [] q)
    → scan_all cls (suc (suc f)) (c ∷ r) p ≡ ok (tok ∷ token eof [] q ∷ [])
unfolding scan_all
scan_all-one cls f c r p q tok e = rw (e, scan_all)

-- Every text, quoted with its escapes, is one string token with that text as its value, at the
-- first line and column, and then the end of the file behind the closing quote.
pub tokenize-quote :
    (cls : CharClass) (s : Text)
    → tokenize cls (quote s)
      ≡ ok (token string s start ∷ token eof [] (place_after (quote s) start) ∷ [])
unfolding tokenize quote
tokenize-quote cls s =
    let e = scan-quote cls (escape s ++ (b'"' ∷ [])) start ∙ scan_string-quote s start in
    scan_all-one cls _ b'"' (escape s ++ (b'"' ∷ [])) start _ (token string s start) e

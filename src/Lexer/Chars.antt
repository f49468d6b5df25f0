-- ===== src/Lexer/Chars.antt =====
-- What tools/bp2cmake/bp2cmake/lexer.py asks of Python's character classes. The Unicode tables are
-- not part of the program: they are a parameter, with the facts that the `str` methods document.
use dalvikvm_multiplatform.Common.{
  ℕ, ◌-◌, ◌≡◌, Bool, true, ◌&&◌, ◌||◌, Option, none, some, if◌then◌else◌, nat_eq, leb, arith,
}

-- `isalpha`, `isdigit` and `isalnum` of a text of one character, and its value as a decimal digit
-- for `int`: `none` where `int` raises ValueError, as on a superscript.
pub record CharClass : Type 0 where
  pub is_alpha : ℕ → Bool
  pub is_digit : ℕ → Bool
  pub is_alnum : ℕ → Bool
  pub decimal : ℕ → Option ℕ
  -- `isalnum` holds where `isalpha` does.
  pub alpha_alnum : (c : ℕ) → is_alpha c ≡ true → is_alnum c ≡ true

abbrev pub ascii_alpha : ℕ → Bool
ascii_alpha c = leb b'a' c && leb c b'z' || leb b'A' c && leb c b'Z'

abbrev pub ascii_digit : ℕ → Bool
ascii_digit c = leb b'0' c && leb c b'9'

pub ascii_alnum_of_alpha : (c : ℕ) → ascii_alpha c ≡ true → (ascii_alpha c || ascii_digit c) ≡ true
ascii_alnum_of_alpha c h = ground arith

-- The classes on ASCII.
abbrev pub ascii : CharClass
ascii = record {
  is_alpha = ascii_alpha;
  is_digit = ascii_digit;
  is_alnum = λ c. ascii_alpha c || ascii_digit c;
  decimal = λ c. if ascii_digit c then some (c - b'0') else none;
  alpha_alnum = ascii_alnum_of_alpha;
}

-- ===== src/Target/ReadBack.antt =====
-- tools/bp2cmake/bp2cmake/target.py: CMake reads from the file of `to_cmake` the values that the profile
-- gave. The reader takes `set(key "value")`, where a backslash in the quoted value stands before a quote
-- or a backslash that is meant itself; it takes no other escape, and no dollar sign, with which the
-- references to variables begin that CMake expands in a quoted value.
use dalvikvm_multiplatform.Common.{
  ℕ, zero, suc, ◌≡◌, ◌≢◌, refl, ap, ◌∙◌, true, false, ◌||◌, not, ◌&&◌, Option, none, some,
  if◌then◌else◌, ◌==◌, nat_eq, List, [], ◌∷◌, ◌++◌, map, append_assoc, Text, codes, Assoc, join,
  replace_char, has_char, length, Bool, Bool-cases, inl, inr, arith,
}
use dalvikvm_multiplatform.Target.{TargetProfile, cmake_escape}
use dalvikvm_multiplatform.Target.Cmake.{settings, set_line, to_cmake}

abbrev add_first : ℕ → Option (Text × Text) → Option (Text × Text)
add_first c none = none
add_first c (some (s, rest)) = some (c ∷ s, rest)

-- A quoted value up to its closing quote, and the text behind it.
unfoldable pub read_value : Text → Option (Text × Text)
read_value [] = none
read_value (c ∷ []) = if c == b'"' then some ([], []) else none
read_value (c ∷ d ∷ t) =
    let escaped = add_first d (read_value t) in
    let plain = add_first c (read_value (d ∷ t)) in
    if c == b'"'
    then some ([], d ∷ t)
    else if c == b'\\'
    then (if d == b'"' || d == b'\\' then escaped else none)
    else if c == b'$'
    then none
    else plain

-- A key up to the space behind it.
unfoldable pub read_key : Text → Option (Text × Text)
read_key [] = none
read_key (c ∷ t) = let rest = add_first c (read_key t) in if c == b' ' then some ([], t) else rest

-- The text behind `word`, if it begins with that.
unfoldable pub behind : Text → Text → Option Text
behind [] t = some t
behind (w ∷ word) [] = none
behind (w ∷ word) (c ∷ t) = if c == w then behind word t else none

escape_char : ℕ → Text
escape_char c = if c == b'"' || c == b'\\' then b'\\' ∷ c ∷ [] else c ∷ []

cmake_escape-cons : (c : ℕ) (s : Text) → cmake_escape (c ∷ s) ≡ escape_char c ++ cmake_escape s
unfolding cmake_escape replace_char escape_char
cmake_escape-cons c s = ground arith

read_value-plain :
    (c : ℕ) (t : Text)
    → (c == b'"') ≡ false
    → (c == b'\\') ≡ false
    → (c == b'$') ≡ false
    → t ≢ []
    → read_value (c ∷ t) ≡ add_first c (read_value t)
unfolding read_value
read_value-plain c [] q b r n = absurd (n refl)
read_value-plain c (d ∷ t) q b r n = rw (q, b, r)

read_value-escape_char :
    (c : ℕ) (t : Text)
    → (c == b'$') ≡ false
    → t ≢ []
    → read_value (escape_char c ++ t) ≡ add_first c (read_value t)
unfolding escape_char read_value
read_value-escape_char c t r n = elim (Bool-cases (c == b'"' || c == b'\\')) [
  | inl special ↦ rw special (rw special refl)
  | inr ordinary ↦ rw ordinary (read_value-plain c t (ground arith) (ground arith) r n)
]

append-nonempty : (s t : Text) (c : ℕ) → s ++ (c ∷ t) ≢ []
append-nonempty [] t c e = cc
append-nonempty (d ∷ s) t c e = cc

-- A value that has no dollar sign and was escaped reads back, whatever stands behind its closing quote.
pub read_value-escape :
    (s rest : Text)
    → has_char b'$' s ≡ false
    → read_value (cmake_escape s ++ (b'"' ∷ rest)) ≡ some (s, rest)
unfolding read_value cmake_escape replace_char has_char
read_value-escape [] rest h = closing rest
  where
    closing : (rest : Text) → read_value (cmake_escape [] ++ (b'"' ∷ rest)) ≡ some ([], rest)
    closing [] = refl
    closing (c ∷ r) = refl
read_value-escape (c ∷ s) rest h =
    let plain : (c == b'$') ≡ false = ground (arith, h) in
    let plain_rest : has_char b'$' s ≡ false = ground (arith, h) in
    let behind_c = cmake_escape s ++ (b'"' ∷ rest) in
    ap (λ w. read_value (w ++ (b'"' ∷ rest))) (cmake_escape-cons c s)
    ∙ ap read_value (append_assoc (escape_char c) (cmake_escape s) (b'"' ∷ rest))
    ∙ read_value-escape_char c behind_c plain (append-nonempty (cmake_escape s) rest b'"')
    ∙ ap (add_first c) (read_value-escape s rest plain_rest)

read_key-append :
    (key t : Text) → has_char b' ' key ≡ false → read_key (key ++ (b' ' ∷ t)) ≡ some (key, t)
unfolding read_key has_char
read_key-append [] t h = refl
read_key-append (c ∷ key) t h = elim (Bool-cases (c == b' ')) [
  | inl same ↦ cc
  | inr other ↦ rw (other, read_key-append key t (rw other at h))
]

-- One line: the key, the value, and the text behind the line.
unfoldable pub read_line : Text → Option ((Text × Text) × Text)
read_line t = elim (behind (codes "set(") t) [
  | none ↦ none
  | some t₁ ↦ elim (read_key t₁) [
    | none ↦ none
    | some (key, t₂) ↦ elim (behind (codes "\"") t₂) [
      | none ↦ none
      | some t₃ ↦ elim (read_value t₃) [
        | none ↦ none
        | some (value, t₄) ↦ elim (behind (codes ")\n") t₄) [
          | none ↦ none
          | some t₅ ↦ some ((key, value), t₅)
        ]
      ]
    ]
  ]
]

-- The given number of lines, and then the end of the file.
unfoldable pub read_lines : ℕ → Text → Option (Assoc Text)
read_lines zero [] = some []
read_lines zero (c ∷ t) = none
read_lines (suc n) t = elim (read_line t) [
  | none ↦ none
  | some (setting, rest) ↦ elim (read_lines n rest) [ none ↦ none | some ss ↦ some (setting ∷ ss) ]
]

unfoldable pub read_file : ℕ → Text → Option (Assoc Text)
read_file n t = elim (behind (codes "# Generated target data. Do not edit.\n") t) [
  | none ↦ none
  | some rest ↦ read_lines n rest
]

read_line-set_line :
    (key value t : Text)
    → has_char b' ' key ≡ false
    → has_char b'$' value ≡ false
    → read_line (set_line (key, value) ++ (b'\n' ∷ t)) ≡ some ((key, value), t)
unfolding read_line set_line behind
read_line-set_line key value t h r =
    let tail = cmake_escape value ++ (b'"' ∷ b')' ∷ b'\n' ∷ t) in
    rw
      (
        append_assoc key (b' ' ∷ b'"' ∷ (cmake_escape value ++ (b'"' ∷ b')' ∷ []))) (b'\n' ∷ t),
        append_assoc (cmake_escape value) (b'"' ∷ b')' ∷ []) (b'\n' ∷ t),
        read_key-append key (b'"' ∷ tail) h,
        read_value-escape value (b')' ∷ b'\n' ∷ t) r,
        read_line,
      )
      refl

-- The lines one after the other, each with its end.
lines : List Text → Text
lines [] = []
lines (l ∷ ls) = l ++ (b'\n' ∷ lines ls)

join-lines :
    (l : Text) (ls : List Text) → join (codes "\n") (l ∷ ls) ++ codes "\n" ≡ l ++ (b'\n' ∷ lines ls)
unfolding join lines
join-lines l [] = refl
join-lines l (m ∷ ls) =
    append_assoc l (b'\n' ∷ join (codes "\n") (m ∷ ls)) (codes "\n")
    ∙ ap (λ t. l ++ (b'\n' ∷ t)) (join-lines m ls)

-- No key has a space in it.
no_spaces : Assoc Text → Bool
no_spaces [] = true
no_spaces ((key, value) ∷ ss) = not (has_char b' ' key) && no_spaces ss

-- No value has a dollar sign in it.
unfoldable pub no_references : Assoc Text → Bool
no_references [] = true
no_references ((key, value) ∷ ss) = not (has_char b'$' value) && no_references ss

read_lines-lines :
    (ss : Assoc Text)
    → no_spaces ss ≡ true
    → no_references ss ≡ true
    → read_lines (length ss) (lines (map set_line ss)) ≡ some ss
unfolding read_lines lines no_spaces no_references
read_lines-lines [] h r = refl
read_lines-lines ((key, value) ∷ ss) h r =
    rw
      (
        read_line-set_line key value (lines (map set_line ss)) (ground (arith, h))
            (ground (arith, r)),
        read_lines-lines ss (ground (arith, h)) (ground (arith, r)),
        read_lines,
      )
      refl

keys_spaced :
    (table : Assoc TargetProfile) (p : TargetProfile) → no_spaces (settings table p) ≡ true
unfolding no_spaces settings has_char
keys_spaced table p = refl

-- Where no setting has a dollar sign in it, the file of `to_cmake` reads back as the settings that it was
-- made of, each value with its quotes and backslashes as they were.
pub read_file-to_cmake :
    (table : Assoc TargetProfile) (p : TargetProfile)
    → no_references (settings table p) ≡ true
    → read_file (length (settings table p)) (to_cmake table p) ≡ some (settings table p)
unfolding read_file to_cmake behind
read_file-to_cmake table p plain =
    ap (read_file _)
      (join-lines (codes "# Generated target data. Do not edit.") (map set_line (settings table p)))
    ∙ read_lines-lines (settings table p) (keys_spaced table p) plain

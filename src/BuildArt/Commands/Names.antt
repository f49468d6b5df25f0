-- ===== src/BuildArt/Commands/Names.antt =====
-- tools/build_art.py: the name that `_tool_basename` finds in a token.
use dalvikvm_multiplatform.Common.{
  ℕ, Bool, true, false, not, ◌&&◌, ◌||◌, List, [], ◌∷◌, ◌++◌, ◌==◌, nat_eq, nat_beq, text_eq,
  has_char, replace_char, split_on, to_front, last_part, Bool-cases, inl, inr, ◌⊎◌, Text, ◌≡◌, refl,
  ap, ◌∙◌, arith,
}
use dalvikvm_multiplatform.BuildArt.Commands.{lstrip_char, kept_char, rstrip_char, tool_basename}

-- A name of one character or more, without quotes and separators of directories.
abbrev pub is_plain : Text → Bool
is_plain name = not (has_char b'"' name) && (not (has_char b'/' name) && not (has_char b'\\' name))

abbrev is_separator : ℕ → Bool
is_separator c = c == b'/' || c == b'\\'

-- A token is a path to a tool: its name alone, or behind a directory with either separator.
abbrev pub IsPath : Text → Text → Type 0
IsPath token name =
    (is_plain name ≡ true)
    × ((c : ℕ) × (n : Text) × (name ≡ c ∷ n))
    × ((token ≡ name)
        ⊎ ((dir : Text) × (separator : ℕ) × (is_separator separator ≡ true)
            × (token ≡ dir ++ (separator ∷ name))))

lstrip-plain : (name : Text) → has_char b'"' name ≡ false → lstrip_char b'"' name ≡ name
unfolding lstrip_char has_char
lstrip-plain [] h = refl
lstrip-plain (c ∷ name) h = ground (arith, h)

lstrip-behind :
    (dir name : Text) (separator : ℕ)
    → (separator == b'"') ≡ false
    → (d : Text) × (lstrip_char b'"' (dir ++ (separator ∷ name)) ≡ d ++ (separator ∷ name))
unfolding lstrip_char
lstrip-behind [] name separator h = ([], rw h refl)
lstrip-behind (c ∷ dir) name separator h = elim (Bool-cases (c == b'"')) [
  | inl quote ↦ rw quote (lstrip-behind dir name separator h)
  | inr other ↦ rw other (c ∷ dir, refl)
]

rstrip-plain : (name : Text) → has_char b'"' name ≡ false → rstrip_char b'"' name ≡ name
unfolding rstrip_char has_char kept_char
rstrip-plain [] h = refl
rstrip-plain (c ∷ []) h = ground (arith, h)
rstrip-plain (c ∷ d ∷ name) h = ap (kept_char b'"' c) (rstrip-plain (d ∷ name) (ground (arith, h)))

rstrip-behind :
    (dir : Text) (c : ℕ) (n : Text)
    → has_char b'"' (c ∷ n) ≡ false
    → rstrip_char b'"' (dir ++ (c ∷ n)) ≡ dir ++ (c ∷ n)
unfolding rstrip_char kept_char
rstrip-behind [] c n h = rstrip-plain (c ∷ n) h
rstrip-behind (d ∷ []) c n h = ap (kept_char b'"' d) (rstrip-behind [] c n h)
rstrip-behind (d ∷ e ∷ dir) c n h = ap (kept_char b'"' d) (rstrip-behind (e ∷ dir) c n h)

replace-plain :
    (name : Text) → has_char b'\\' name ≡ false → replace_char b'\\' (b'/' ∷ []) name ≡ name
unfolding replace_char has_char
replace-plain [] h = refl
replace-plain (c ∷ name) h = ground (arith, h, replace-plain name)

-- Behind a directory with either separator, the slash and the name stand.
replace-behind :
    (dir name : Text) (separator : ℕ)
    → is_separator separator ≡ true
    → has_char b'\\' name ≡ false
    → (d : Text) × (replace_char b'\\' (b'/' ∷ []) (dir ++ (separator ∷ name)) ≡ d ++ (b'/' ∷ name))
unfolding replace_char
replace-behind [] name separator s h = elim (Bool-cases (separator == b'\\')) [
  | inl back ↦ ([], rw back (ap (λ z. b'/' ∷ z) (replace-plain name h)))
  | inr slash ↦
      let e = (nat_eq.beq_iff separator b'/').0 (ground (arith, s, slash)) in
      ([], rw slash (ap (λ z. separator ∷ z) (replace-plain name h) ∙ ap (λ z. z ∷ name) e))
]
replace-behind (c ∷ dir) name separator s h =
    let (d, e) = replace-behind dir name separator s h in
    elim (Bool-cases (c == b'\\')) [
      | inl back ↦ rw back (b'/' ∷ d, ap (λ z. b'/' ∷ z) e)
      | inr other ↦ rw other (c ∷ d, ap (λ z. c ∷ z) e)
    ]

last-to_front :
    (c : ℕ) (p : Text) (q : Text) (ps : List Text)
    → last_part (to_front c (p ∷ q ∷ ps)) ≡ last_part (q ∷ ps)
unfolding to_front last_part
last-to_front c p q ps = refl

split-plain : (name : Text) → has_char b'/' name ≡ false → split_on b'/' name ≡ name ∷ []
unfolding split_on to_front has_char
split-plain [] h = refl
split-plain (c ∷ name) h =
    let first : nat_beq c b'/' ≡ false = ground (arith, h) in
    let rest : has_char b'/' name ≡ false = ground (arith, h) in
    rw (first, split-plain name rest) refl

-- The parts of a path, of which the last one is the name behind the last slash.
split-behind :
    (dir name : Text)
    → has_char b'/' name ≡ false
    → (p : Text) × (q : Text) × (ps : List Text) × (split_on b'/' (dir ++ (b'/' ∷ name))
        ≡ p ∷ q ∷ ps)
      × (last_part (q ∷ ps) ≡ name)
unfolding split_on to_front last_part
split-behind [] name h = ([], name, [], ap (λ z. [] ∷ z) (split-plain name h), refl)
split-behind (c ∷ dir) name h =
    let (p, q, ps, e, l) = split-behind dir name h in
    elim (Bool-cases (nat_beq c b'/')) [
      | inl slash ↦ rw slash ([], p, q ∷ ps, ap (λ z. [] ∷ z) e, l)
      | inr other ↦ rw other (c ∷ p, q, ps, ap (to_front c) e, l)
    ]

has_quotes :
    (c : ℕ) (name : Text)
    → (c == b'"') ≡ false
    → has_char b'"' name ≡ false
    → has_char b'"' (c ∷ name) ≡ false
unfolding has_char
has_quotes c name a b = ground (arith, a, b)

-- The name of a tool is found behind any directory, and in lower case.
pub tool_basename-IsPath :
    (lower : Text → Text) (token name : Text)
    → IsPath token name
    → tool_basename lower token ≡ lower name
unfolding tool_basename last_part
tool_basename-IsPath lower token name (plain, (c, n, e), inl bare) =
    let quotes : has_char b'"' name ≡ false = ground (arith, plain) in
    let slashes : has_char b'/' name ≡ false = ground (arith, plain) in
    let backs : has_char b'\\' name ≡ false = ground (arith, plain) in
    ap (tool_basename lower) bare
    ∙ rw
        (
          lstrip-plain name quotes,
          rstrip-plain name quotes,
          replace-plain name backs,
          split-plain name slashes,
          tool_basename,
        )
        refl
tool_basename-IsPath lower token name (plain, (c, n, e), inr (dir, separator, s, at)) =
    let quotes : has_char b'"' name ≡ false = ground (arith, plain) in
    let slashes : has_char b'/' name ≡ false = ground (arith, plain) in
    let backs : has_char b'\\' name ≡ false = ground (arith, plain) in
    let (d, e₁) = lstrip-behind dir name separator (not_quote s) in
    let e₂ = kept d in
    let (d', e₃) = replace-behind d name separator s backs in
    let (p, q, ps, e₄, l) = split-behind d' name slashes in
    ap (tool_basename lower) at ∙ rw (e₁, e₂, e₃, e₄, tool_basename) (ap lower l)
  where
    not_quote : is_separator separator ≡ true → (separator == b'"') ≡ false
    not_quote h = elim (Bool-cases (separator == b'"')) [
      | inr other ↦ other
      | inl quote ↦
          let same = (nat_eq.beq_iff separator b'"').0 quote in absurd (ground (arith, same, h))
    ]

    no_quotes :
        (separator == b'"') ≡ false
        → has_char b'"' name ≡ false
        → has_char b'"' (separator ∷ name) ≡ false
    no_quotes a b = has_quotes separator name a b

    kept : (d : Text) → rstrip_char b'"' (d ++ (separator ∷ name)) ≡ d ++ (separator ∷ name)
    kept d = rstrip-behind d separator name (no_quotes (not_quote s) (ground (arith, plain)))

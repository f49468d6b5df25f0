-- ===== src/Common/Texts.antt =====
-- Python's `str` as the list of its code points, with the string methods that the tools call.
use Prim.Native.Char.{code}
use Prim.Native.String.{String}
use Prim.Native.Nat.{ℕ}
use mathlib.Core.Path.{◌≡◌, refl}
use mathlib.Core.Logic.{◌↔◌}
use mathlib.Core.Bool.{Bool, true, false, ◌&&◌}
use mathlib.Core.List.{List, [], ◌∷◌, ◌++◌}
use native.Mathlib.Omega.{arith}
use dalvikvm_multiplatform.Common.Lists.{if◌then◌else◌, Eq, nat_beq, nat_eq}

abbrev pub Text : Type 0
Text = List ℕ

-- The code points of a literal.
abbrev pub codes : String → Text
codes String.[] = []
codes (String.◌∷◌ c s) = code c ∷ codes s

unfoldable pub text_beq : Text → Text → Bool
text_beq [] [] = true
text_beq [] (y ∷ ys) = false
text_beq (x ∷ xs) [] = false
text_beq (x ∷ xs) (y ∷ ys) = nat_beq x y && text_beq xs ys

text_beq→eq : (a b : Text) → text_beq a b ≡ true → a ≡ b
unfolding text_beq
text_beq→eq [] [] h = refl
text_beq→eq [] (y ∷ ys) h = cc
text_beq→eq (x ∷ xs) [] h = cc
text_beq→eq (x ∷ xs) (y ∷ ys) h = ground (arith, text_beq→eq xs ys)

pub text_beq_self : (a : Text) → text_beq a a ≡ true
unfolding text_beq
text_beq_self [] = refl
text_beq_self (x ∷ xs) = ground (arith, text_beq_self xs)

pub text_beq_iff : (a b : Text) → (text_beq a b ≡ true) ↔ (a ≡ b)
text_beq_iff a b = (text_beq→eq a b, λ e. rw e (text_beq_self b))

instance abbrev pub text_eq : Eq Text
text_eq = record { beq = text_beq; beq_iff = text_beq_iff }

-- `s.startswith(p)`
unfoldable pub starts_with : Text → Text → Bool
starts_with s [] = true
starts_with [] (p ∷ ps) = false
starts_with (c ∷ s) (p ∷ ps) = nat_beq c p && starts_with s ps

-- `s.replace(old, new)` for a text `old` of one character.
unfoldable pub replace_char : ℕ → Text → Text → Text
replace_char old new [] = []
replace_char old new (c ∷ s) = (if nat_beq c old then new else c ∷ []) ++ replace_char old new s

-- `s.split(c, 1)[0]`: what stands before the first `c`, or all of `s`.
unfoldable pub before_char : ℕ → Text → Text
before_char c [] = []
before_char c (x ∷ s) = if nat_beq x c then [] else x ∷ before_char c s

-- `c in s`
unfoldable pub has_char : ℕ → Text → Bool
has_char c [] = false
has_char c (x ∷ s) = if nat_beq x c then true else has_char c s

-- `sep.join(parts)`
unfoldable pub join : Text → List Text → Text
join sep [] = []
join sep (p ∷ []) = p
join sep (p ∷ q ∷ ps) = p ++ (sep ++ join sep (q ∷ ps))

pub has_char-before_char : (c : ℕ) (s : Text) → has_char c (before_char c s) ≡ false
unfolding has_char before_char
has_char-before_char c [] = refl
has_char-before_char c (x ∷ s) = ground (arith, has_char-before_char c s)

pub before_char_fixed : (c : ℕ) (s : Text) → has_char c s ≡ false → before_char c s ≡ s
unfolding has_char before_char
before_char_fixed c [] h = refl
before_char_fixed c (x ∷ s) h = ground (arith, before_char_fixed c s)

-- `s.split(c)` for a text `c` of one character: a character goes to the front of the first part.
unfoldable pub to_front : ℕ → List Text → List Text
to_front c [] = (c ∷ []) ∷ []
to_front c (p ∷ ps) = (c ∷ p) ∷ ps

unfoldable pub split_on : ℕ → Text → List Text
split_on sep [] = [] ∷ []
split_on sep (c ∷ s) =
    let rest = split_on sep s in if nat_beq c sep then [] ∷ rest else to_front c rest

-- `"".join(texts)`
unfoldable pub joined : List Text → Text
joined [] = []
joined (t ∷ ts) = t ++ joined ts

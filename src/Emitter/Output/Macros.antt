-- ===== src/Emitter/Output/Macros.antt =====
-- tools/bp2cmake/bp2cmake/emitter.py: the lines that `emit_module` writes for the definitions of a target.
use dalvikvm_multiplatform.Common.{
  true, false, ◌&&◌, ◌||◌, List, [], ◌∷◌, ◌++◌, map, ◌==◌, nat_eq, nat_beq, text_eq, contains,
  contains-append, eq_self, Bool-cases, inl, inr, ◌⊎◌, Text, codes, joined, join, has_char,
  before_char, ◌≡◌, refl, ap, subst, ◌∙◌, arith,
}
use dalvikvm_multiplatform.Model.{Module}
use dalvikvm_multiplatform.Overlay.{Overlay, policy_for}
use dalvikvm_multiplatform.Emitter.Output.{
  quote_define, is_funcmacro, funcmacros, plain_macros, in_art, all_defines, when_any, indented,
  call_lines, call_unless_empty, flag_line, definition_lines, shell_line, macro_lines, Target,
  front_lines, define_lines, link_lines, target_lines,
}
use dalvikvm_multiplatform.Emitter.Output.Defines.{all_defines-split}

-- A definition whose name, before the first equals sign, has a parenthesis.
abbrev pub IsMacro : Text → Type 0
IsMacro d =
    (name : Text) × (rest : Text) × (d ≡ name ++ (b'(' ∷ rest)) × (has_char b'=' name ≡ false)

-- A definition whose name has none, with a value or without one.
abbrev pub IsObject : Text → Type 0
IsObject d =
    (name : Text) × (has_char b'(' name ≡ false)
    × (has_char b'=' name ≡ false)
    × ((d ≡ name) ⊎ ((value : Text) × (d ≡ name ++ (b'=' ∷ value))))

macro_name :
    (name rest : Text) → has_char b'=' name ≡ false → is_funcmacro (name ++ (b'(' ∷ rest)) ≡ true
unfolding is_funcmacro has_char before_char
macro_name [] rest h = refl
macro_name (c ∷ name) rest h =
    let first : nat_beq c b'=' ≡ false = ground (arith, h) in
    let more = macro_name name rest (ground (arith, h)) in rw first (ground (arith, more))

object_name :
    (name : Text)
    → has_char b'(' name ≡ false
    → has_char b'=' name ≡ false
    → is_funcmacro name ≡ false
unfolding is_funcmacro has_char before_char
object_name [] h k = refl
object_name (c ∷ name) h k =
    let first : nat_beq c b'=' ≡ false = ground (arith, k) in
    let more = object_name name (ground (arith, h)) (ground (arith, k)) in
    rw first (ground (arith, more, h))

object_value :
    (name value : Text)
    → has_char b'(' name ≡ false
    → has_char b'=' name ≡ false
    → is_funcmacro (name ++ (b'=' ∷ value)) ≡ false
unfolding is_funcmacro has_char before_char
object_value [] value h k = refl
object_value (c ∷ name) value h k =
    let first : nat_beq c b'=' ≡ false = ground (arith, k) in
    let more = object_value name value (ground (arith, h)) (ground (arith, k)) in
    rw first (ground (arith, more, h))

is_funcmacro-IsObject : (d : Text) → IsObject d → is_funcmacro d ≡ false
is_funcmacro-IsObject d (name, h, k, inl e) = ap is_funcmacro e ∙ object_name name h k
is_funcmacro-IsObject d (name, h, k, inr (value, e)) =
    ap is_funcmacro e ∙ object_value name value h k

is_funcmacro-IsMacro : (d : Text) → IsMacro d → is_funcmacro d ≡ true
is_funcmacro-IsMacro d (name, rest, e, h) = ap is_funcmacro e ∙ macro_name name rest h

contains-map :
    (f : Text → Text) (x : Text) (xs : List Text)
    → contains x xs ≡ true
    → contains (f x) (map f xs) ≡ true
unfolding contains
contains-map f x [] h = cc
contains-map f x (y ∷ xs) h = elim (Bool-cases (y == x)) [
  | inl same ↦
      let e = (text_eq.beq_iff y x).0 same in ground (arith, eq_self (f x), ap (λ z. f z == f x) e)
  | inr other ↦ let later = contains-map f x xs (ground (arith, h, other)) in ground (arith, later)
]

in_left : (x : Text) (xs ys : List Text) → contains x xs ≡ true → contains x (xs ++ ys) ≡ true
in_left x xs ys h = ground (arith, contains-append x xs ys, h)

in_right : (x : Text) (xs ys : List Text) → contains x ys ≡ true → contains x (xs ++ ys) ≡ true
in_right x xs ys h = ground (arith, contains-append x xs ys, h)

-- An argument of a call has a line of its own, which is indented.
argument_line :
    (opening x : Text) (arguments : List Text)
    → contains x arguments ≡ true
    → contains (codes "        " ++ x) (call_unless_empty opening arguments) ≡ true
unfolding call_unless_empty when_any call_lines indented contains
argument_line opening x [] h = cc
argument_line opening x (y ∷ ys) h =
    let here = contains-map (λ s. codes "        " ++ s) x (y ∷ ys) h in
    let line =
      in_left (codes "        " ++ x) (map (λ s. codes "        " ++ s) (y ∷ ys))
        (codes ")" ∷ [] ∷ []) here in
    ground (arith, line)

flags_line :
    (before after x : Text) (flags : List Text)
    → contains x flags ≡ true
    → contains
        (joined (before ∷ join (codes " ") flags ∷ after ∷ []))
        (flag_line before after flags)
      ≡ true
unfolding flag_line when_any contains
flags_line before after x [] h = cc
flags_line before after x (y ∷ ys) h =
    ground (arith, eq_self (joined (before ∷ join (codes " ") (y ∷ ys) ∷ after ∷ [])))

append_nil : (s : Text) → s ++ [] ≡ s
append_nil [] = refl
append_nil (c ∷ s) = ap (λ t. c ∷ t) (append_nil s)

-- A line of the definitions is one of the target.
define_line :
    (ov : Overlay) (t : Target) (x : Text)
    → contains x (define_lines ov t.edited) ≡ true
    → contains x (target_lines ov t) ≡ true
unfolding target_lines
define_line ov t x h =
    in_right x (front_lines ov t) (define_lines ov t.edited ++ link_lines ov t)
      (in_left x (define_lines ov t.edited) (link_lines ov t) h)

macro_line :
    (ov : Overlay) (m : Module Text) (d : Text)
    → contains d (funcmacros (all_defines ov m)) ≡ true
    → contains (codes "        " ++ shell_line (codes "PRIVATE") d) (define_lines ov m) ≡ true
unfolding define_lines macro_lines
macro_line ov m d h =
    let public_defines = (policy_for ov m.name).add_public_defines in
    in_right _ (call_unless_empty _ (definition_lines public_defines (all_defines ov m)))
      (call_unless_empty _ _)
      (argument_line _ (shell_line (codes "PRIVATE") d)
        (macro_lines public_defines (all_defines ov m))
        (in_right _ (map (shell_line (codes "PUBLIC")) (funcmacros public_defines))
          (map (shell_line (codes "PRIVATE")) (funcmacros (all_defines ov m)))
          (contains-map (shell_line (codes "PRIVATE")) d (funcmacros (all_defines ov m)) h)))

object_line :
    (ov : Overlay) (m : Module Text) (d : Text)
    → contains d (plain_macros (all_defines ov m)) ≡ true
    → (flags : List Text) × (contains (quote_define d) flags ≡ true)
      × (contains (codes "        PRIVATE " ++ join (codes " ") flags) (define_lines ov m) ≡ true)
unfolding define_lines definition_lines joined
object_line ov m d h =
    let public_defines = (policy_for ov m.name).add_public_defines in
    let flags = map quote_define (plain_macros (all_defines ov m)) in
    let there = contains-map quote_define d (plain_macros (all_defines ov m)) h in
    (
      flags,
      there,
      subst (λ z. contains (codes "        PRIVATE " ++ z) (define_lines ov m) ≡ true)
          (append_nil (join (codes " ") flags))
          (in_left _ (call_unless_empty _ (definition_lines public_defines (all_defines ov m)))
            (call_unless_empty _ (macro_lines public_defines (all_defines ov m)))
            (argument_line _ (joined (codes "PRIVATE " ∷ join (codes " ") flags ∷ [] ∷ []))
              (definition_lines public_defines (all_defines ov m))
              (in_right _
                (flag_line (codes "PUBLIC ") [] (map quote_define (plain_macros public_defines)))
                (flag_line (codes "PRIVATE ") [] flags)
                (flags_line (codes "PRIVATE ") [] (quote_define d) flags there)))),
    )

pub target_lines-Defines :
    (ov : Overlay) (t : Target) (d : Text)
    → (contains d (policy_for ov t.edited.name).add_defines
        || in_art t.edited.bp_dir && contains d ov.global_policy.art_defines)
      ≡ true
    → (IsMacro d
        → contains (codes "        PRIVATE \"SHELL:-D" ++ (d ++ codes "\"")) (target_lines ov t)
          ≡ true)
      × (IsObject d
          → (flags : List Text) × (contains (quote_define d) flags ≡ true)
            × (contains (codes "        PRIVATE " ++ join (codes " ") flags) (target_lines ov t)
                ≡ true))
unfolding shell_line joined
target_lines-Defines ov t d given =
    let (options, definitions) = all_defines-split ov t.edited d in
    (
      λ is_macro. define_line ov t _ (
          macro_line ov t.edited d
            (options ∙ ground (arith, given, is_funcmacro-IsMacro d is_macro))),
      λ is_object.
          let (flags, there, line) =
            object_line ov t.edited d
              (definitions ∙ ground (arith, given, is_funcmacro-IsObject d is_object)) in
          (flags, there, define_line ov t _ line),
    )

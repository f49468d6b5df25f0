-- ===== src/Emitter/Output/Defines.antt =====
-- tools/bp2cmake/bp2cmake/emitter.py: where the definitions of a target go, and how CMake reads them.
use dalvikvm_multiplatform.Common.{
  ℕ, true, false, not, ◌&&◌, ◌||◌, some, List, [], ◌∷◌, ◌++◌, append_assoc, ◌==◌, nat_eq, text_eq,
  contains, eq_self, Bool-cases, inl, inr, Text, codes, has_char, replace_char, ◌≡◌, refl, sym, ap,
  ◌∙◌, arith,
}
use dalvikvm_multiplatform.Model.{Module}
use dalvikvm_multiplatform.Overlay.{Overlay, policy_for}
use dalvikvm_multiplatform.Overlay.Edits.{contains-extend_new}
use dalvikvm_multiplatform.Target.{cmake_escape}
use dalvikvm_multiplatform.Target.ReadBack.{read_value, read_value-escape}
use dalvikvm_multiplatform.Emitter.Output.{
  needs_quotes, quote_define, is_funcmacro, funcmacros, plain_macros, in_art, all_defines,
}

contains-funcmacros :
    (d : Text) (ds : List Text) → contains d (funcmacros ds) ≡ (contains d ds && is_funcmacro d)
unfolding funcmacros contains
contains-funcmacros d [] = refl
contains-funcmacros d (e ∷ ds) = elim (Bool-cases (e == d)) [
  | inl same ↦
      rw ((text_eq.beq_iff e d).0 same) (ground (arith, contains-funcmacros d ds, eq_self d))
  | inr other ↦ ground (arith, contains-funcmacros d ds, other)
]

contains-plain_macros :
    (d : Text) (ds : List Text)
    → contains d (plain_macros ds) ≡ (contains d ds && not (is_funcmacro d))
unfolding plain_macros contains
contains-plain_macros d [] = refl
contains-plain_macros d (e ∷ ds) = elim (Bool-cases (e == d)) [
  | inl same ↦
      rw ((text_eq.beq_iff e d).0 same) (ground (arith, contains-plain_macros d ds, eq_self d))
  | inr other ↦ ground (arith, contains-plain_macros d ds, other)
]

contains-all_defines :
    (ov : Overlay) (m : Module Text) (d : Text)
    → contains d (all_defines ov m) ≡ (
        contains d (policy_for ov m.name).add_defines
        || in_art m.bp_dir && contains d ov.global_policy.art_defines)
unfolding all_defines
contains-all_defines ov m d =
    ground
      (arith, contains-extend_new d (policy_for ov m.name).add_defines ov.global_policy.art_defines)

-- A private definition of a target is one that its policy adds or, for a module of the ART tree, one
-- of those of the whole tree. It is passed as an option if its name has a parenthesis, as a
-- definition of CMake if not, and never as both.
pub all_defines-split :
    (ov : Overlay) (m : Module Text) (d : Text)
    → let given =
        contains d (policy_for ov m.name).add_defines
        || in_art m.bp_dir && contains d ov.global_policy.art_defines in
      (contains d (funcmacros (all_defines ov m)) ≡ (given && is_funcmacro d))
      × (contains d (plain_macros (all_defines ov m)) ≡ (given && not (is_funcmacro d)))
all_defines-split ov m d = (
  contains-funcmacros d (all_defines ov m)
      ∙ ap (λ b. b && is_funcmacro d) (contains-all_defines ov m d),
  contains-plain_macros d (all_defines ov m)
      ∙ ap (λ b. b && not (is_funcmacro d)) (contains-all_defines ov m d),
)

replace_char-absent : (c : ℕ) (new s : Text) → has_char c s ≡ false → replace_char c new s ≡ s
unfolding replace_char has_char
replace_char-absent c new [] h = refl
replace_char-absent c new (x ∷ s) h = ground (arith, replace_char-absent c new s)

escaped :
    (d : Text) → has_char b'\\' d ≡ false → replace_char b'"' (codes "\\\"") d ≡ cmake_escape d
unfolding cmake_escape
escaped d plain =
    sym (ap (replace_char b'"' (codes "\\\"")) (replace_char-absent b'\\' (codes "\\\\") d plain))

-- A definition that is quoted, and that has no backslash and no dollar sign, is a quote and a text from
-- which the reader of CMake's quoted values reads the definition back, up to the closing quote, whatever
-- stands behind it.
pub quote_define-read_value :
    (d rest : Text)
    → has_char b'\\' d ≡ false
    → has_char b'$' d ≡ false
    → needs_quotes d ≡ true
    → (s : Text) × (quote_define d ++ rest ≡ b'"' ∷ s) × (read_value s ≡ some (d, rest))
unfolding quote_define
quote_define-read_value d rest plain unexpanded quoted =
    let body = replace_char b'"' (codes "\\\"") d in
    (
      body ++ (b'"' ∷ rest),
      rw quoted (ap (λ t. b'"' ∷ t) (append_assoc body (b'"' ∷ []) rest)),
      ap read_value (ap (λ t. t ++ (b'"' ∷ rest)) (escaped d plain))
          ∙ read_value-escape d rest unexpanded,
    )

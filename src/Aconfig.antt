-- ===== src/Aconfig.antt =====
-- tools/bp2cmake/bp2cmake/aconfig.py: the C++ header and the Java class of a package of flags. The
-- parser of the declarations is made of regular expressions and is not here, nor is file output.
pub mod Names
use dalvikvm_multiplatform.Common.{
  split_on, joined, ℕ, zero, suc, Bool, true, false, if◌then◌else◌, ◌==◌, nat_eq, List, [], ◌∷◌,
  ◌++◌, map, length, Text, codes, join, replace_char,
}

pub record Flag : Type 0 where
  pub name : Text
  pub read_only : Bool
  pub enabled : Bool

pub record AconfigPackage : Type 0 where
  pub package_name : Text
  pub flags : List Flag

-- `c * n`
unfoldable pub repeated : ℕ → ℕ → Text
repeated c zero = []
repeated c (suc n) = c ∷ repeated c n

unfoldable pub namespace : AconfigPackage → Text
namespace pkg = join (codes "::") (split_on b'.' pkg.package_name)

unfoldable pub c_prefix : AconfigPackage → Text
c_prefix pkg = replace_char b'.' (codes "_") pkg.package_name

unfoldable pub header_name : AconfigPackage → Text
header_name pkg = c_prefix pkg ++ codes ".h"

-- `val`
unfoldable pub default_text : Flag → Text
default_text f = if f.enabled then codes "true" else codes "false"

unfoldable pub ns_open : AconfigPackage → Text
ns_open pkg =
    joined (map (λ p. codes "namespace " ++ (p ++ codes " { ")) (split_on b'.' pkg.package_name))

unfoldable pub ns_close : AconfigPackage → Text
ns_close pkg = repeated b'}' (length (split_on b'.' pkg.package_name))

-- `upper` stands for `str.upper`.
module _ (upper : Text → Text) where
  unfoldable pub macro_prefix : AconfigPackage → Text
  macro_prefix pkg = upper (c_prefix pkg)

  -- The loop for the compile-time macros.
  unfoldable pub macros : AconfigPackage → List Flag → List Text
  macros pkg [] = []
  macros pkg (f ∷ fs) =
      let rest = macros pkg fs in
      if f.read_only
      then joined (
          codes "#define "
          ∷ macro_prefix pkg
          ∷ codes "_"
          ∷ upper f.name
          ∷ codes " "
          ∷ default_text f
          ∷ [])
        ∷ rest
      else rest

  abbrev accessor : Flag → Text
  accessor f =
      if f.read_only
      then joined (
          codes "inline constexpr bool "
          ∷ f.name
          ∷ codes "() { return "
          ∷ default_text f
          ∷ codes "; }"
          ∷ [])
      else joined
          (codes "inline bool " ∷ f.name ∷ codes "() { return " ∷ default_text f ∷ codes "; }" ∷ [])

  abbrev c_accessor : AconfigPackage → Flag → Text
  c_accessor pkg f = joined (
      codes "inline bool "
      ∷ c_prefix pkg
      ∷ codes "_"
      ∷ f.name
      ∷ codes "() { return "
      ∷ default_text f
      ∷ codes "; }"
      ∷ [])

  -- The list `L`, and the text.
  unfoldable pub header_lines : AconfigPackage → List Text
  header_lines pkg =
      let guard = macro_prefix pkg ++ codes "_H_" in
      (codes "// Generated by bp2cmake.aconfig (host aconfig stand-in). Do not edit."
        ∷ joined (codes "// Source: " ∷ pkg.package_name ∷ codes " aconfig declarations." ∷ [])
        ∷ (codes "#ifndef " ++ guard)
        ∷ (codes "#define " ++ guard)
        ∷ []
        ∷ [])
      ++ (macros pkg pkg.flags
          ++ ((([]) ∷ codes "#ifdef __cplusplus" ∷ ns_open pkg ∷ [])
              ++ (map accessor pkg.flags
                  ++ (((ns_close pkg ++ (codes "  // " ++ namespace pkg))
                        ∷ codes "#endif  // __cplusplus"
                        ∷ []
                        ∷ codes "#ifdef __cplusplus"
                        ∷ codes "extern \"C\" {"
                        ∷ codes "#endif"
                        ∷ [])
                      ++ (map (c_accessor pkg) pkg.flags
                          ++ (codes "#ifdef __cplusplus"
                              ∷ codes "}"
                              ∷ codes "#endif"
                              ∷ []
                              ∷ (codes "#endif  // " ++ guard)
                              ∷ []
                              ∷ []))))))

  unfoldable pub render_header : AconfigPackage → Text
  render_header pkg = join (codes "\n") (header_lines pkg)

  -- `p[:1].upper() + p[1:]`
  unfoldable pub capitalized : Text → Text
  capitalized [] = upper []
  capitalized (c ∷ s) = upper (c ∷ []) ++ s

  -- `camel`, on the parts of the name.
  unfoldable pub camel_parts : List Text → Text
  camel_parts [] = []
  camel_parts (p ∷ ps) = p ++ joined (map capitalized ps)

  unfoldable pub camel : Text → Text
  camel name = camel_parts (split_on b'_' name)

  abbrev java_constant : AconfigPackage → Flag → Text
  java_constant pkg f = joined (
      codes "    public static final String FLAG_"
      ∷ upper f.name
      ∷ codes " = \""
      ∷ pkg.package_name
      ∷ codes "."
      ∷ f.name
      ∷ codes "\";"
      ∷ [])

  abbrev java_accessor : Flag → Text
  java_accessor f = joined (
      codes "    public static boolean "
      ∷ camel f.name
      ∷ codes "() { return "
      ∷ default_text f
      ∷ codes "; }"
      ∷ [])

  unfoldable pub java_lines : AconfigPackage → List Text
  java_lines pkg =
      (joined (codes "package " ∷ pkg.package_name ∷ codes ";" ∷ [])
        ∷ []
        ∷ codes "// Generated by bp2cmake.aconfig (host aconfig stand-in). Do not edit."
        ∷ codes "/** @hide */"
        ∷ codes "public final class Flags {"
        ∷ [])
      ++ (map (java_constant pkg) pkg.flags
          ++ ([] ∷ (map java_accessor pkg.flags ++ (codes "}" ∷ [] ∷ []))))

  unfoldable pub render_java : AconfigPackage → Text
  render_java pkg = join (codes "\n") (java_lines pkg)

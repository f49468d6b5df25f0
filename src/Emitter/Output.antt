-- ===== src/Emitter/Output.antt =====
-- tools/bp2cmake/bp2cmake/emitter.py: `emit_module`, the lines of a target, and `module_manifest`.
pub mod Defines
pub mod Macros
use dalvikvm_multiplatform.Common.{
  ℕ, Bool, true, false, not, ◌&&◌, ◌||◌, Option, none, some, List, [], ◌∷◌, ◌++◌, map,
  if◌then◌else◌, ◌==◌, text_eq, nat_eq, contains, dedupe, Text, Assoc, codes, joined, join,
  has_char, before_char, replace_char, starts_with, is_blank, rstrip, sort_texts, Result, ok, err,
  ◌>>=◌,
}
use dalvikvm_multiplatform.Model.{Module}
use dalvikvm_multiplatform.Overlay.{Overlay, ModulePolicy, policy_for, target_name, extend_new}
use dalvikvm_multiplatform.Emitter.Resolver.{Resolver}
use dalvikvm_multiplatform.Emitter.Sources.{
  kind_of, with_policy, sources, include_dirs_of, link_libs, absorbed_source_props, gensrc_ref,
}
use dalvikvm_multiplatform.Emitter.Generated.{Commands, generated_sources}

-- `_std_flag`
unfoldable pub std_flag : Text → Bool → Text
std_flag value cpp =
    if value == codes "experimental"
    then (if cpp then codes "gnu++2a" else codes "gnu11")
    else value

-- `flags.insert(0, "-std=" + ...)` for a standard that is given.
unfoldable pub with_std : Option Text → Bool → List Text → List Text
with_std none cpp flags = flags
with_std (some std) cpp flags =
    if is_blank std then flags else (codes "-std=" ++ std_flag std cpp) ∷ flags

-- `_quote_define`
unfoldable pub needs_quotes : Text → Bool
needs_quotes d = has_char b'(' d || has_char b')' d || has_char b' ' d || has_char b'\t' d

unfoldable pub quote_define : Text → Text
quote_define d =
    if needs_quotes d then b'"' ∷ (replace_char b'"' (codes "\\\"") d ++ (b'"' ∷ [])) else d

-- `_is_funcmacro`, and the definitions for which it has one value.
unfoldable pub is_funcmacro : Text → Bool
is_funcmacro d = has_char b'(' (before_char b'=' d)

unfoldable pub funcmacros : List Text → List Text
funcmacros [] = []
funcmacros (d ∷ ds) = if is_funcmacro d then d ∷ funcmacros ds else funcmacros ds

unfoldable pub plain_macros : List Text → List Text
plain_macros [] = []
plain_macros (d ∷ ds) = if is_funcmacro d then plain_macros ds else d ∷ plain_macros ds

-- `defines` of a module, with those of the ART tree.
unfoldable pub in_art : Text → Bool
in_art bp_dir = bp_dir == codes "art" || starts_with bp_dir (codes "art/")

unfoldable pub all_defines : Overlay → Module Text → List Text
all_defines ov m =
    let defines = (policy_for ov m.name).add_defines in
    if in_art m.bp_dir then extend_new defines ov.global_policy.art_defines else defines

-- Lines that are there if a list is not empty.
unfoldable pub when_any : List Text → List Text → List Text
when_any [] block = []
when_any (x ∷ xs) block = block

unfoldable pub indented : List Text → List Text
indented texts = map (λ s. codes "        " ++ s) texts

-- A call with an argument on each line, the closing parenthesis and an empty line.
unfoldable pub call_lines : Text → List Text → List Text
call_lines opening arguments = opening ∷ (indented arguments ++ (codes ")" ∷ [] ∷ []))

-- A call over some lines, left out where it has none.
unfoldable pub call_unless_empty : Text → List Text → List Text
call_unless_empty opening arguments = when_any arguments (call_lines opening arguments)

unfoldable pub declaration : Text → Text → Text
declaration kind target =
    if kind == codes "executable"
    then codes "add_executable(" ++ target
    else joined (
        codes "add_library("
        ∷ target
        ∷ codes " "
        ∷ (if kind == codes "shared" then codes "SHARED" else codes "STATIC")
        ∷ [])

-- `" ".join(flags)` between two texts, as a line that is there if there are flags.
unfoldable pub flag_line : Text → Text → List Text → List Text
flag_line before after flags =
    when_any flags (joined (before ∷ join (codes " ") flags ∷ after ∷ []) ∷ [])

unfoldable pub option_lines : List Text → List Text → List Text → List Text
option_lines cflags cppflags conlyflags =
    flag_line (codes "PRIVATE ") [] cflags
    ++ (flag_line (codes "PRIVATE $<$<COMPILE_LANGUAGE:CXX>:") (codes ">") cppflags
        ++ flag_line (codes "PRIVATE $<$<COMPILE_LANGUAGE:C>:") (codes ">") conlyflags)

unfoldable pub definition_lines : List Text → List Text → List Text
definition_lines public_defines defines =
    flag_line (codes "PUBLIC ") [] (map quote_define (plain_macros public_defines))
    ++ flag_line (codes "PRIVATE ") [] (map quote_define (plain_macros defines))

unfoldable pub shell_line : Text → Text → Text
shell_line scope d = joined (scope ∷ codes " \"SHELL:-D" ∷ d ∷ codes "\"" ∷ [])

unfoldable pub macro_lines : List Text → List Text → List Text
macro_lines public_defines defines =
    map (shell_line (codes "PUBLIC")) (funcmacros public_defines)
    ++ map (shell_line (codes "PRIVATE")) (funcmacros defines)

-- A call on one line and an empty line, left out where it has no argument.
unfoldable pub one_line_call : Text → List Text → List Text
one_line_call before arguments =
    when_any arguments (joined (before ∷ join (codes " ") arguments ∷ codes ")" ∷ []) ∷ [] ∷ [])

-- Each block and an empty line.
unfoldable pub spaced : List Text → List Text
spaced [] = []
spaced (block ∷ blocks) = block ∷ [] ∷ spaced blocks

-- What `emit_module` computes before it writes its lines.
pub record Target : Type 0 where
  pub edited : Module Text
  pub srcs : List Text
  pub gen_blocks : List Text
  pub includes : List Text
  pub link : List Text
  pub props : List Text

module _ (ov : Overlay) where
  -- The lines of `emit_module` up to the compile options.
  unfoldable pub front_lines : Target → List Text
  front_lines t =
      let m = t.edited in
      let target = target_name ov m.name in
      (joined (
          codes "# Generated by bp2cmake from "
          ∷ m.module_type
          ∷ codes " \""
          ∷ m.name
          ∷ codes "\". Do not edit by hand."
          ∷ [])
        ∷ codes "# Port-policy decisions live in //overlay/art_port_policy.py."
        ∷ []
        ∷ [])
      ++ (when_any t.gen_blocks (t.gen_blocks ++ ([] ∷ []))
          ++ (call_lines (declaration (kind_of ov m) target) t.srcs
              ++ (call_unless_empty (codes "target_include_directories(" ++ target)
                    (map (λ d. codes "PUBLIC " ++ d) t.includes)
                  ++ call_unless_empty (codes "target_compile_options(" ++ target) (
                      option_lines m.cflags (with_std m.cpp_std true m.cppflags)
                        (with_std m.c_std false m.conlyflags)))))

  -- Those of the definitions.
  unfoldable pub define_lines : Module Text → List Text
  define_lines m =
      let target = target_name ov m.name in
      let public_defines = (policy_for ov m.name).add_public_defines in
      call_unless_empty (codes "target_compile_definitions(" ++ target)
        (definition_lines public_defines (all_defines ov m))
      ++ call_unless_empty (codes "target_compile_options(" ++ target)
          (macro_lines public_defines (all_defines ov m))

  -- Those of the linking, and the properties of sources.
  unfoldable pub link_lines : Target → List Text
  link_lines t =
      let m = t.edited in
      let target = target_name ov m.name in
      (if kind_of ov m == codes "static"
        then []
        else one_line_call (joined (codes "target_link_options(" ∷ target ∷ codes " PRIVATE " ∷ []))
            m.ldflags)
      ++ (one_line_call (joined (codes "target_link_libraries(" ∷ target ∷ codes " " ∷ [])) t.link
          ++ spaced t.props)

  -- The lines of `emit_module`.
  unfoldable pub target_lines : Target → List Text
  target_lines t = front_lines t ++ (define_lines t.edited ++ link_lines t)

  unfoldable pub target_text : Target → Text
  target_text t = rstrip (join (codes "\n") (target_lines t)) ++ codes "\n"

-- The entries of `module_manifest`.
pub record ModuleManifest : Type 0 where
  pub aosp_name : Text
  pub cmake_target : Text
  pub module_type : Text
  pub kind : Text
  pub sources : List Text
  pub include_dirs : List Text
  pub link_dependencies : List Text
  pub enabled : Bool

module _ (ev : Resolver) (ov : Overlay) (f : ℕ) where
  -- The sources of a target: its own, the generated ones and those of the codegen driver.
  unfoldable pub all_sources : List Text → Commands → ModulePolicy → List Text
  all_sources srcs gen pol =
      (srcs ++ gen.0)
      ++ map (λ gp. joined (gensrc_ref ∷ codes "/" ∷ gp ∷ [])) pol.add_gensrc_sources

  -- `emit_module`, with `_exported_cache` before and after.
  unfoldable pub emit_module : Module Text → Assoc (List Text) → Result (Text × Assoc (List Text))
  emit_module module₀ cache = do
    let m = with_policy ov module₀
    srcs ← sources ev ov f m
    gen ← generated_sources ev ov f m
    (includes, cache₁) ← include_dirs_of ev ov f m cache
    link ← link_libs ev ov f m
    props ← absorbed_source_props ev ov f m
    ok (
      target_text ov (record {
        edited = m;
        srcs = all_sources srcs gen (policy_for ov m.name);
        gen_blocks = gen.1;
        includes = includes;
        link = link;
        props = props;
      }),
      cache₁,
    )

  unfoldable pub module_manifest :
      Module Text → Assoc (List Text) → Result (ModuleManifest × Assoc (List Text))
  module_manifest module₀ cache = do
    let m = with_policy ov module₀
    srcs ← sources ev ov f m
    gen ← generated_sources ev ov f m
    (includes, cache₁) ← include_dirs_of ev ov f m cache
    link ← link_libs ev ov f m
    ok (
      record {
        aosp_name = m.name;
        cmake_target = target_name ov m.name;
        module_type = m.module_type;
        kind = kind_of ov m;
        sources = sort_texts (dedupe (all_sources srcs gen (policy_for ov m.name)));
        include_dirs = sort_texts includes;
        link_dependencies = sort_texts link;
        enabled = m.enabled;
      },
      cache₁,
    )

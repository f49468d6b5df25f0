-- ===== src/BuildArt/Links.antt =====
-- tools/build_art.py: the link outputs that Ninja declares, and the audit of a link command.
pub mod Inventory
use dalvikvm_multiplatform.Common.{
  ℕ, zero, suc, ◌-◌, Bool, true, false, not, ◌&&◌, ◌||◌, Option, none, some, List, [], ◌∷◌, ◌++◌,
  if◌then◌else◌, ◌==◌, text_eq, nat_eq, ltb, leb, contains, map, starts_with, has_char, ends_with,
  before_char, to_front, split_on, join, length, text_leb, is_blank, Text, codes, Assoc, find,
  store, BuildFault, unknown_language, wrong_driver, no_target_triple, no_lld, no_shared, no_pie,
  missing_flags, Error, Result, ok, err, ◌>>=◌, ◌>>◌,
}
use dalvikvm_multiplatform.Overlay.{drop_chars, has_sub}
use dalvikvm_multiplatform.Target.{TargetProfile}
use dalvikvm_multiplatform.BuildArt.Options.{refuse}
use dalvikvm_multiplatform.BuildArt.Commands.{
  command_invocations, tool_basename, command_has_target,
}

-- A character at which `str.splitlines` ends a line.
unfoldable pub is_break : ℕ → Bool
is_break c = leb 10 c && leb c 13 || leb 28 c && leb c 30 || c == 133 || c == 8232 || c == 8233

-- The lines, with an empty one behind a last break.
unfoldable pub line_parts : Text → List Text
line_parts [] = [] ∷ []
line_parts (c ∷ s) =
    let rest = line_parts s in
    if c == b'\r' && starts_with s (codes "\n")
    then rest
    else if is_break c
    then [] ∷ rest
    else to_front c rest

unfoldable pub without_last_empty : List Text → List Text
without_last_empty [] = []
without_last_empty (l ∷ []) = if is_blank l then [] else l ∷ []
without_last_empty (l ∷ m ∷ ls) = l ∷ without_last_empty (m ∷ ls)

-- `s.splitlines()`
unfoldable pub splitlines : Text → List Text
splitlines s = without_last_empty (line_parts s)

-- `line.rpartition(": ")`: the text before the last separator and the text behind it.
unfoldable pub partition_at : ℕ → Text → Option (Text × Text) → Option (Text × Text)
partition_at c s (some (name, rule)) = some (c ∷ name, rule)
partition_at c s none = if starts_with (c ∷ s) (codes ": ") then some ([], drop_chars 1 s) else none

unfoldable pub rpartition : Text → Option (Text × Text)
rpartition [] = none
rpartition (c ∷ s) = partition_at c s (rpartition s)

-- The kind of an output, by its rule.
unfoldable pub kind_of_rule : Text → Option Text
kind_of_rule rule =
    if has_sub (codes "SHARED_LIBRARY_LINKER__") rule
    then some (codes "shared-library")
    else if has_sub (codes "EXECUTABLE_LINKER__") rule
    then some (codes "executable")
    else none

-- `rule` has C at its beginning or behind an underscore: `(?:^|_)C_(?:SHARED|EXECUTABLE)`.
unfoldable pub is_c_rule : Text → Bool
is_c_rule rule =
    starts_with rule (codes "C_SHARED")
    || starts_with rule (codes "C_EXECUTABLE")
    || has_sub (codes "_C_SHARED") rule
    || has_sub (codes "_C_EXECUTABLE") rule

-- `sorted(d.items())`: no key stands twice.
unfoldable pub insert_item : {A : Type 0} → Text × A → Assoc A → Assoc A
insert_item kv [] = kv ∷ []
insert_item kv (lw ∷ d) = if text_leb kv.0 lw.0 then kv ∷ lw ∷ d else lw ∷ insert_item kv d

unfoldable pub sorted_items : {A : Type 0} → Assoc A → Assoc A
sorted_items [] = []
sorted_items (kv ∷ d) = insert_item kv (sorted_items d)

module _ (lower : Text → Text) (target : TargetProfile) where
  -- `expected`
  unfoldable pub expected_output : Text → Text → Bool
  expected_output kind name =
      if target.target_platform == codes "windows"
      then (if kind == codes "shared-library"
          then ends_with (lower name) (codes ".dll")
          else ends_with (lower name) (codes ".exe"))
      else (if kind == codes "shared-library"
          then ends_with (lower name) (codes ".so")
          else not (has_char b'.' name))

  -- The name, the kind and the rule of a line that declares an output which may be a product.
  unfoldable pub output_of_kind : Text → Text → Option Text → Option (Text × Text × Text)
  output_of_kind name rule none = none
  output_of_kind name rule (some kind) =
      if expected_output kind name then some (name, kind, rule) else none

  unfoldable pub output_of_parts : Option (Text × Text) → Option (Text × Text × Text)
  output_of_parts none = none
  output_of_parts (some (name, rule)) =
      if has_char b'/' name || has_char b'\\' name
      then none
      else output_of_kind name rule (kind_of_rule rule)

  unfoldable pub output_of_line : Text → Option (Text × Text × Text)
  output_of_line line = output_of_parts (rpartition line)

  -- What a line adds to `declared` of `_parse_ninja_product_outputs`, and the loop.
  unfoldable pub declare_product : Option (Text × Text × Text) → Assoc Text → Assoc Text
  declare_product none declared = declared
  declare_product (some (name, kind, rule)) declared = elim (find name declared) [
    | some k ↦ declared
    | none ↦ store name kind declared
  ]

  unfoldable pub product_loop : List Text → Assoc Text → Assoc Text
  product_loop [] declared = declared
  product_loop (line ∷ lines) declared =
      product_loop lines (declare_product (output_of_line line) declared)

  -- `_parse_ninja_product_outputs`
  unfoldable pub parse_ninja_product_outputs : Text → List (Text × Text)
  parse_ninja_product_outputs output = sorted_items (product_loop (splitlines output) [])

  -- The language of a rule.
  unfoldable pub language_of : Text → Text → Result Text
  language_of name rule =
      if has_sub (codes "CXX_") rule
      then ok (codes "c++")
      else if is_c_rule rule
      then ok (codes "c")
      else refuse (unknown_language name)

  unfoldable pub declare_link :
      Option (Text × Text × Text) → Assoc (Text × Text) → Result (Assoc (Text × Text))
  declare_link none declared = ok declared
  declare_link (some (name, kind, rule)) declared = elim (find name declared) [
    | some k ↦ ok declared
    | none ↦ do language ← language_of name rule; ok (store name (kind, language) declared)
  ]

  unfoldable pub link_loop : List Text → Assoc (Text × Text) → Result (Assoc (Text × Text))
  link_loop [] declared = ok declared
  link_loop (line ∷ lines) declared = do
    declared' ← declare_link (output_of_line line) declared
    link_loop lines declared'

  -- `_parse_ninja_link_outputs`
  unfoldable pub parse_ninja_link_outputs : Text → Result (List (Text × Text × Text))
  parse_ninja_link_outputs output = do
    declared ← link_loop (splitlines output) []
    ok (map (λ (d : Text × (Text × Text)). (d.0, d.1.0, d.1.1)) (sorted_items declared))

  -- `name.rsplit(".", 1)[0]`
  unfoldable pub stem_at : ℕ → Text → Option Text → Option Text
  stem_at c s (some stem) = some (c ∷ stem)
  stem_at c s none = if c == b'.' then some [] else none

  unfoldable pub stem_before : Text → Option Text
  stem_before [] = none
  stem_before (c ∷ s) = stem_at c s (stem_before s)

  unfoldable pub stem : Text → Text
  stem name = elim (stem_before name) [ none ↦ name | some s ↦ s ]

  -- `name[:-3]` of a name that ends with `.so`.
  unfoldable pub take_chars : ℕ → Text → Text
  take_chars zero s = []
  take_chars (suc n) [] = []
  take_chars (suc n) (c ∷ s) = c ∷ take_chars n s

  -- `_product_target_name`
  unfoldable pub product_target_name : Text → Text
  product_target_name name =
      if target.target_platform == codes "windows"
      then stem name
      else if starts_with name (codes "lib") && ends_with name (codes ".so")
      then drop_chars 3 (take_chars (length name - 3) name)
      else stem name

  -- `driver_tokens`, of invocations that are not empty, and whether one is the configured driver.
  unfoldable pub links_through : (Text → Bool) → Text → List (List Text) → Bool
  links_through is_configured driver [] = false
  links_through is_configured driver ([] ∷ rest) = links_through is_configured driver rest
  links_through is_configured driver ((t ∷ ts) ∷ rest) =
      (contains (tool_basename lower t) (driver ∷ (driver ++ codes ".exe") ∷ []) && is_configured t)
      || links_through is_configured driver rest

  unfoldable pub all_tokens : List (List Text) → List Text
  all_tokens [] = []
  all_tokens (ts ∷ rest) = ts ++ all_tokens rest

  unfoldable pub required_flags : List Text
  required_flags =
      if contains target.target_arch (codes "x86_64" ∷ codes "aarch64" ∷ codes "arm64ec" ∷ [])
      then codes "/DYNAMICBASE" ∷ codes "/NXCOMPAT" ∷ codes "/HIGHENTROPYVA" ∷ []
      else codes "/DYNAMICBASE" ∷ codes "/NXCOMPAT" ∷ []

  unfoldable pub absent_flags : Text → List Text → List Text
  absent_flags text [] = []
  absent_flags text (flag ∷ flags) =
      if has_sub flag text then absent_flags text flags else flag ∷ absent_flags text flags

  unfoldable pub check_flags : List Text → Result (Unit {0})
  check_flags [] = ok tt
  check_flags (flag ∷ flags) = refuse (missing_flags (flag ∷ flags))

  -- `_audit_link_command`. `is_driver driver` is `_same_host_path` with the configured driver, and
  -- `upper` is `str.upper`.
  unfoldable pub audit_link_command :
      (Text → Text) → (Text → Text → Bool) → Text → Text → Text → Result (Unit {0})
  audit_link_command upper is_driver command kind language =
      let invocations = command_invocations command in
      let tokens = all_tokens invocations in
      let driver = if language == codes "c++" then codes "clang++" else codes "clang" in
      if not (links_through (is_driver driver) driver invocations)
      then refuse wrong_driver
      else if not (command_has_target tokens target.target_triple)
      then refuse no_target_triple
      else if not (contains (codes "-fuse-ld=lld") tokens)
      then refuse no_lld
      else if kind == codes "shared-library" && not (contains (codes "-shared") tokens)
      then refuse no_shared
      else if kind == codes "executable"
          && (target.target_platform == codes "linux" && not (contains (codes "-pie") tokens))
      then refuse no_pie
      else if target.target_platform == codes "windows"
      then check_flags (absent_flags (upper command) required_flags)
      else ok tt

-- ===== src/AotIdentity.antt =====
-- tools/windows_aot_identity.py: the identity that the generation and the startup of the Windows boot
-- image have to agree on.
pub mod Contract
use dalvikvm_multiplatform.Common.{
  keys, ℕ, Bool, true, false, not, ◌&&◌, ◌||◌, Option, none, some, List, [], ◌∷◌, ◌++◌, map,
  if◌then◌else◌, ◌==◌, text_eq, nat_eq, nat_beq, contains, dedupe, sort_texts, join, Text, codes,
  Assoc, find, identity_error, Error, Result, ok, err, ◌>>=◌, ◌>>◌,
}

pub record IdentityUse : Type 0 where
  pub boot_class_path_locations : List Text
  pub image_location : Text
  pub components : List Text

-- TARGET_ID, INSTRUCTION_SET and the locations.
abbrev pub target_id : Text
target_id = codes "windows-x86_64-msvc"

abbrev pub instruction_set : Text
instruction_set = codes "x86_64"

abbrev pub logical_boot_jar : Text
logical_boot_jar = codes "/system/framework/boot.jar"

abbrev pub package_boot_jar : Text
package_boot_jar = codes "runtime/boot.jar"

abbrev pub startup_image_location : Text
startup_image_location = codes "runtime/boot-image/boot.art"

abbrev pub boot_components : List Text
boot_components = codes "boot" ∷ []

abbrev pub package_image_file : Text → Text
package_image_file extension =
    codes "runtime/boot-image/" ++ (instruction_set ++ (codes "/boot." ++ extension))

abbrev pub package_image_files : List Text
package_image_files = map package_image_file (codes "art" ∷ codes "oat" ∷ codes "vdex" ∷ [])

-- CANONICAL_IDENTITY
abbrev pub canonical_identity : IdentityUse
canonical_identity = record {
  boot_class_path_locations = logical_boot_jar ∷ [];
  image_location = startup_image_location;
  components = boot_components;
}

-- `_boot_class_path_text`
unfoldable pub boot_class_path_text : IdentityUse → Text
boot_class_path_text identity = join (codes ":") identity.boot_class_path_locations

-- A value of a record: what equals a number, a text, a list of texts, None, or any other.
pub data Json : Type 0 where
  number : ℕ → Json
  text : Text → Json
  texts : List Text → Json
  null other : Json

unfoldable pub list_beq : List Text → List Text → Bool
list_beq [] [] = true
list_beq [] (y ∷ ys) = false
list_beq (x ∷ xs) [] = false
list_beq (x ∷ xs) (y ∷ ys) = x == y && list_beq xs ys

-- `contract_record`
unfoldable pub contract_record : Assoc Json
contract_record =
    (codes "version", number 1)
    ∷ (codes "target_id", text target_id)
    ∷ (codes "instruction_set", text instruction_set)
    ∷ (codes "component_topology", text (codes "single"))
    ∷ (codes "components", texts boot_components)
    ∷ (codes "boot_class_path_locations", texts (canonical_identity.boot_class_path_locations))
    ∷ (codes "boot_class_path_text", text (boot_class_path_text canonical_identity))
    ∷ (codes "package_boot_jar", text package_boot_jar)
    ∷ (codes "startup_image_location", text startup_image_location)
    ∷ (codes "package_image_files", texts package_image_files)
    ∷ []

unfoldable pub generation_options : List Text
generation_options =
    (codes "--dex-location=" ++ logical_boot_jar)
    ∷ (codes "-Xbootclasspath-locations:" ++ boot_class_path_text canonical_identity)
    ∷ []

unfoldable pub startup_options : List Text
startup_options =
    (codes "-Xbootclasspath-locations:" ++ boot_class_path_text canonical_identity)
    ∷ (codes "-Ximage:" ++ startup_image_location)
    ∷ []

-- `a == b`, where the expected value `b` is none of the others.
unfoldable pub same_json : Json → Json → Bool
same_json (number a) (number b) = nat_beq a b
same_json (text a) (text b) = a == b
same_json (texts a) (texts b) = list_beq a b
same_json null null = true
same_json _ _ = false

-- What two dicts have at a key.
unfoldable pub same_value : Option Json → Option Json → Bool
same_value none none = true
same_value (some a) (some b) = same_json a b
same_value _ _ = false

-- `record.get(key)`, which is None where there is no such key.
unfoldable pub got : Option Json → Json
got none = null
got (some value) = value

-- `record.get(key) == expected.get(key)`
unfoldable pub same_get : Option Json → Option Json → Bool
same_get a b = same_json (got a) (got b)

-- The first of the keys at which `get` differs.
unfoldable pub first_difference : Assoc Json → Assoc Json → List Text → Option Text
first_difference record_ expected [] = none
first_difference record_ expected (key ∷ ks) =
    if same_get (find key record_) (find key expected)
    then first_difference record_ expected ks
    else some key

-- `record == expected`, by the keys of both.
unfoldable pub same_record : Assoc Json → Assoc Json → List Text → Bool
same_record record_ expected [] = true
same_record record_ expected (key ∷ ks) =
    same_value (find key record_) (find key expected) && same_record record_ expected ks

-- `sorted(set(record) | set(expected))`
unfoldable pub all_keys : Assoc Json → Assoc Json → List Text
all_keys record_ expected = sort_texts (dedupe (keys record_ ++ keys expected))

-- The field that `next` gives, or its default.
unfoldable pub field_of : Option Text → Text
field_of none = codes "manifest-contract"
field_of (some key) = key

-- `identity_from_contract_record`; `none` stands for a record that is no object. Two dicts differ just
-- if they do at a key of one of them. The entries of the expected record are those of the identity.
unfoldable pub identity_from_contract_record : Option (Assoc Json) → Result IdentityUse
identity_from_contract_record none = err (identity_error (codes "manifest-contract"))
identity_from_contract_record (some record_) =
    if same_record record_ contract_record (all_keys record_ contract_record)
    then ok canonical_identity
    else err (
        identity_error
          (field_of (first_difference record_ contract_record (all_keys record_ contract_record))))

-- A comparison of `validate_generation_startup`: the error where the two differ.
unfoldable pub require_same : Text → Bool → Result (Unit {0})
require_same field true = ok tt
require_same field false = err (identity_error field)

unfoldable pub identity_beq : IdentityUse → IdentityUse → Bool
identity_beq a b =
    list_beq a.boot_class_path_locations b.boot_class_path_locations
    && (a.image_location == b.image_location && list_beq a.components b.components)

unfoldable pub validate_generation_startup : IdentityUse → IdentityUse → Result (Unit {0})
validate_generation_startup generation startup = do
  require_same (codes "boot-class-path")
      (list_beq generation.boot_class_path_locations startup.boot_class_path_locations)
  require_same (codes "image-location") (generation.image_location == startup.image_location)
  require_same (codes "component-topology") (list_beq generation.components startup.components)
  require_same (codes "canonical-contract") (identity_beq generation canonical_identity)

-- `intentional_startup_mismatches`: a name, an identity and the field that is expected to be reported.
abbrev pub Mismatch : Type 0
Mismatch = Text × IdentityUse × Text

abbrev pub located : Text → IdentityUse
located location = record canonical_identity { boot_class_path_locations = location ∷ [] }

abbrev pub imaged : Text → IdentityUse
imaged location = record canonical_identity { image_location = location }

unfoldable pub intentional_startup_mismatches : List Mismatch
intentional_startup_mismatches =
    (
      codes "boot-location-case",
      located (codes "/System/framework/boot.jar"),
      codes "boot-class-path",
    )
    ∷ (
      codes "boot-location-separator",
      located (codes "\\system\\framework\\boot.jar"),
      codes "boot-class-path",
    )
    ∷ (
      codes "boot-location-physical",
      located (codes "C:/package/runtime/boot.jar"),
      codes "boot-class-path",
    )
    ∷ (
      codes "image-location-case",
      imaged (codes "Runtime/boot-image/boot.art"),
      codes "image-location",
    )
    ∷ (
      codes "image-location-separator",
      imaged (codes "runtime\\boot-image\\boot.art"),
      codes "image-location",
    )
    ∷ (
      codes "image-location-physical",
      imaged (codes "C:/package/runtime/boot-image/boot.art"),
      codes "image-location",
    )
    ∷ (
      codes "extra-component",
      record canonical_identity { components = codes "boot" ∷ codes "boot-framework" ∷ [] },
      codes "component-topology",
    )
    ∷ []

-- `_gate_bug`
unfoldable pub gate_bug : {A : Type 0} → Result A
gate_bug = err (identity_error (codes "gate-contract"))

-- What the loop of `run_gate` makes of one call of `validate_generation_startup`: the entry of
-- `rejected` without its diagnostic.
unfoldable pub rejection : Text → Text → Result (Unit {0}) → Result (Text × Text)
rejection name expected_field (ok done) = gate_bug
rejection name expected_field (err (identity_error field)) =
    if field == expected_field then ok (name, field) else gate_bug
rejection name expected_field (err x) = err x

unfoldable pub reject_all : List Mismatch → Result (List (Text × Text))
reject_all [] = ok []
reject_all ((name, startup, expected_field) ∷ rest) = do
  one ← rejection name expected_field (validate_generation_startup canonical_identity startup)
  more ← reject_all rest
  ok (one ∷ more)

-- `run_gate` up to where it writes: the list `rejected`.
unfoldable pub run_gate : Text → Result (List (Text × Text))
run_gate target =
    if not (target == target_id) then err (identity_error (codes "target-id")) else (do
      validate_generation_startup canonical_identity canonical_identity
      reject_all intentional_startup_mismatches)

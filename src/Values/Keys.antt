-- ===== src/Values/Keys.antt =====
-- tools/bp2cmake/bp2cmake/evaluator.py: a dict has each key once, and assignment keeps it so.
use dalvikvm_multiplatform.Common.{
  ◌≡◌, refl, ◌∙◌, false, none, some, [], ◌∷◌, ◌++◌, if◌then◌else◌, ◌==◌, Text, text_eq,
  text_beq_iff, contains, Bool-cases, inl, inr, arith,
}
use dalvikvm_multiplatform.Values.{Value, Dict, empty, bind, get, set, keys}

-- No key stands twice.
unfoldable pub IsUnique : Dict → Type 0
IsUnique empty = Unit
IsUnique (bind k v d) = (get k d ≡ none) × IsUnique d

pub get-set :
    (key k : Text) (v : Value) (d : Dict)
    → get k (set key v d) ≡ (if key == k then some v else get k d)
unfolding get set
get-set key k v empty = refl
get-set key k v (bind j w d) =
    ground (arith, text_beq_iff key k, text_beq_iff j k, text_beq_iff j key, get-set key k v d)

pub set-IsUnique : (key : Text) (v : Value) (d : Dict) → IsUnique d → IsUnique (set key v d)
unfolding IsUnique set get
set-IsUnique key v empty h = (refl, tt)
set-IsUnique key v (bind k w d) h = elim (Bool-cases (k == key)) [
  | inl same ↦ rw same h
  | inr other ↦ rw other (
    get-set key k v d ∙ ground (arith, text_beq_iff key k, text_beq_iff k key, h.0),
    set-IsUnique key v d h.1,
  )
]

pub keys-set :
    (key : Text) (v : Value) (d : Dict)
    → keys (set key v d) ≡ (if contains key (keys d) then keys d else keys d ++ (key ∷ []))
unfolding keys set contains
keys-set key v empty = refl
keys-set key v (bind k w d) = elim (Bool-cases (k == key)) [
  | inl same ↦ rw same
  | inr other ↦ rw (other, keys-set key v d) (ground arith)
]

-- A key is found exactly when it is among the keys.
pub get-keys : (k : Text) (d : Dict) → contains k (keys d) ≡ false → get k d ≡ none
unfolding get keys contains
get-keys k empty h = refl
get-keys k (bind j v d) h = ground (arith, get-keys k d)

pub keys-get : (k : Text) (d : Dict) → get k d ≡ none → contains k (keys d) ≡ false
unfolding get keys contains
keys-get k empty h = refl
keys-get k (bind j v d) h = ground (arith, keys-get k d)

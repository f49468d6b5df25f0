-- ===== src/Common/Dicts.antt =====
-- A `dict` with text keys as the list of its items in the order of insertion.
use mathlib.Core.Path.{◌≡◌, refl, sym, subst}
use mathlib.Core.List.{List, [], ◌∷◌, map}
use mathlib.Core.Bool.{false}
use mathlib.Core.Logic.{inl, inr}
use mathlib.Core.Option.{Option, none, some}
use native.Mathlib.Omega.{arith}
use dalvikvm_multiplatform.Common.Lists.{if◌then◌else◌, if_ind, ◌==◌, Bool-cases, All}
use dalvikvm_multiplatform.Common.Texts.{Text, text_eq, text_beq_iff}
use dalvikvm_multiplatform.Common.Members.{contains}

abbrev pub Assoc {ℓ} : Type ℓ → Type ℓ
Assoc V = List (Text × V)

module _ {ℓ} {V : Type ℓ} where
  -- `d.get(key)`
  unfoldable pub find : Text → Assoc V → Option V
  find key [] = none
  find key ((k, v) ∷ d) = if k == key then some v else find key d

  -- `list(d)`
  unfoldable pub keys : Assoc V → List Text
  keys d = map (λ kv. kv.0) d

  pub find-absent : (key : Text) (d : Assoc V) → contains key (keys d) ≡ false → find key d ≡ none
  unfolding find keys contains
  find-absent key [] h = refl
  find-absent key ((k, v) ∷ d) h = ground (arith, find-absent key d)

  -- `d[key] = value`: a key that is there keeps its place.
  unfoldable pub store : Text → V → Assoc V → Assoc V
  store key value [] = (key, value) ∷ []
  store key value ((k, v) ∷ d) = if k == key then (k, value) ∷ d else (k, v) ∷ store key value d

  pub find-store :
      (key k : Text) (value : V) (d : Assoc V)
      → find k (store key value d) ≡ (if key == k then some value else find k d)
  unfolding find store
  find-store key k value [] = refl
  find-store key k value ((j, v) ∷ d) =
      ground
        (arith, text_beq_iff key k, text_beq_iff j k, text_beq_iff j key, find-store key k value d)

pub store-All :
    {A : Type 0} (P : Text × A → Type 0) (key : Text) (value : A) (d : Assoc A)
    → P (key, value)
    → All P d
    → All P (store key value d)
unfolding store
store-All P key value [] p h = (p, tt)
store-All P key value ((k, v) ∷ d) p h =
    if_ind (All P) (k == key)
      (λ same. (subst (λ z. P (z, value)) (sym ((text_eq.beq_iff k key).0 same)) p, h.1))
      (λ _. (h.0, store-All P key value d p h.1))

pub find-All :
    {A : Type 0} (P : Text × A → Type 0) (key : Text) (d : Assoc A) (value : A)
    → All P d
    → find key d ≡ some value
    → P (key, value)
unfolding find
find-All P key [] value h e = cc
find-All P key ((k, v) ∷ d) value h e = elim (Bool-cases (k == key)) [
  | inl same ↦
      let equal = rw same at e in
      subst (λ z. P (z, value)) ((text_eq.beq_iff k key).0 same) (subst (λ z. P (k, z)) (cc) h.0)
  | inr other ↦ find-All P key d value h.1 (rw other at e)
]

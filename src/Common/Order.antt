-- ===== src/Common/Order.antt =====
-- Python's order of texts, and `sorted` on a list of them.
use mathlib.Core.Path.{◌≡◌, refl}
use mathlib.Core.Bool.{Bool, true, false, ◌||◌}
use mathlib.Core.List.{List, [], ◌∷◌}
use native.Mathlib.Omega.{arith}
use dalvikvm_multiplatform.Common.Lists.{if◌then◌else◌, if_ind, ◌==◌, nat_eq, ltb}
use dalvikvm_multiplatform.Common.Texts.{Text, text_eq}
use dalvikvm_multiplatform.Common.Members.{contains}

-- `a <= b`
unfoldable pub text_leb : Text → Text → Bool
text_leb [] b = true
text_leb (x ∷ a) [] = false
text_leb (x ∷ a) (y ∷ b) = if x == y then text_leb a b else ltb x y

unfoldable pub insert_text : Text → List Text → List Text
insert_text t [] = t ∷ []
insert_text t (u ∷ us) = if text_leb t u then t ∷ u ∷ us else u ∷ insert_text t us

-- `sorted(texts)`
unfoldable pub sort_texts : List Text → List Text
sort_texts [] = []
sort_texts (t ∷ ts) = insert_text t (sort_texts ts)

-- No item stands in front of a smaller one.
unfoldable pub IsSorted : List Text → Type 0
IsSorted [] = Unit
IsSorted (t ∷ []) = Unit
IsSorted (t ∷ u ∷ us) = (text_leb t u ≡ true) × IsSorted (u ∷ us)

text_leb_total : (a b : Text) → text_leb a b ≡ false → text_leb b a ≡ true
unfolding text_leb
text_leb_total [] b h = ground arith
text_leb_total (x ∷ a) [] h = refl
text_leb_total (x ∷ a) (y ∷ b) h = ground (arith, text_leb_total a b)

insert_text-IsSorted : (t : Text) (us : List Text) → IsSorted us → IsSorted (insert_text t us)
unfolding insert_text IsSorted
insert_text-IsSorted t [] h = tt
insert_text-IsSorted t (u ∷ []) h =
    if_ind IsSorted (text_leb t u) (λ le. (le, tt)) (λ gt. (text_leb_total t u gt, tt))
insert_text-IsSorted t (u ∷ v ∷ us) h =
    if_ind IsSorted (text_leb t u) (λ le. (le, h))
      λ gt.
        if_ind (λ l. IsSorted l → IsSorted (u ∷ l)) (text_leb t v)
          (λ _ k. (text_leb_total t u gt, k)) (λ _ k. (h.0, k))
          (insert_text-IsSorted t (v ∷ us) h.1)

pub sort_texts-IsSorted : (ts : List Text) → IsSorted (sort_texts ts)
unfolding sort_texts IsSorted
sort_texts-IsSorted [] = tt
sort_texts-IsSorted (t ∷ ts) = insert_text-IsSorted t (sort_texts ts) (sort_texts-IsSorted ts)

contains-insert_text :
    (a t : Text) (us : List Text) → contains a (insert_text t us) ≡ (t == a || contains a us)
unfolding insert_text contains
contains-insert_text a t [] = refl
contains-insert_text a t (u ∷ us) = ground (arith, contains-insert_text a t us)

pub contains-sort_texts : (a : Text) (ts : List Text) → contains a (sort_texts ts) ≡ contains a ts
unfolding sort_texts contains
contains-sort_texts a [] = refl
contains-sort_texts a (t ∷ ts) =
    ground (arith, contains-insert_text a t (sort_texts ts), contains-sort_texts a ts)

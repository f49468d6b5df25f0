-- ===== src/Values/Merge.antt =====
-- tools/bp2cmake/bp2cmake/evaluator.py: what `_deep_merge` does, key by key.
use dalvikvm_multiplatform.Common.{
  sym, subst, some, none, ◌≡◌, refl, ap, ◌∙◌, Option, List, [], ◌∷◌, ◌++◌, if◌then◌else◌, ◌==◌,
  Text, text_eq, text_beq_iff, contains, Bool-cases, inl, inr, arith,
}
use dalvikvm_multiplatform.Values.{
  Value, Values, none_value, str, boolean, int, list, dict, nil, cons, append, to_list, Dict, empty,
  bind, get, set, keys, merge_value, deep_merge,
}
use dalvikvm_multiplatform.Values.Keys.{IsUnique, get-set, set-IsUnique, keys-set}

to_list-append : (xs ys : Values) → to_list (append xs ys) ≡ to_list xs ++ to_list ys
unfolding append to_list
to_list-append nil ys = refl
to_list-append (cons x xs) ys = ap (λ zs. x ∷ zs) (to_list-append xs ys)

-- What a key has after a merge, by what it has in the two dicts: of two lists a list of the items of
-- both, the first one's in front; of two dicts the merge of the second onto the first; and else the
-- value of the second dict, if that has the key.
unfoldable pub Merged : Option Value → Option Value → Option Value → Type 0
Merged va none r = r ≡ va
Merged (some (list xs)) (some (list ys)) r =
    (zs : Values) × (r ≡ some (list zs)) × (to_list zs ≡ to_list xs ++ to_list ys)
Merged (some (dict d)) (some (dict e)) r = r ≡ some (dict (deep_merge d e))
Merged va (some vb) r = r ≡ some vb

merge_value-Merged :
    (va : Option Value) (vb : Value) → Merged va (some vb) (some (merge_value va vb))
unfolding merge_value Merged
merge_value-Merged (some (list xs)) (list ys) = (append xs ys, refl, to_list-append xs ys)
merge_value-Merged (some (dict d)) (dict e) = refl
merge_value-Merged none none_value = refl
merge_value-Merged none (str s) = refl
merge_value-Merged none (boolean b) = refl
merge_value-Merged none (int n) = refl
merge_value-Merged none (list ys) = refl
merge_value-Merged none (dict e) = refl
merge_value-Merged (some none_value) none_value = refl
merge_value-Merged (some none_value) (str s) = refl
merge_value-Merged (some none_value) (boolean b) = refl
merge_value-Merged (some none_value) (int n) = refl
merge_value-Merged (some none_value) (list ys) = refl
merge_value-Merged (some none_value) (dict e) = refl
merge_value-Merged (some (str t)) none_value = refl
merge_value-Merged (some (str t)) (str s) = refl
merge_value-Merged (some (str t)) (boolean b) = refl
merge_value-Merged (some (str t)) (int n) = refl
merge_value-Merged (some (str t)) (list ys) = refl
merge_value-Merged (some (str t)) (dict e) = refl
merge_value-Merged (some (boolean c)) none_value = refl
merge_value-Merged (some (boolean c)) (str s) = refl
merge_value-Merged (some (boolean c)) (boolean b) = refl
merge_value-Merged (some (boolean c)) (int n) = refl
merge_value-Merged (some (boolean c)) (list ys) = refl
merge_value-Merged (some (boolean c)) (dict e) = refl
merge_value-Merged (some (int m)) none_value = refl
merge_value-Merged (some (int m)) (str s) = refl
merge_value-Merged (some (int m)) (boolean b) = refl
merge_value-Merged (some (int m)) (int n) = refl
merge_value-Merged (some (int m)) (list ys) = refl
merge_value-Merged (some (int m)) (dict e) = refl
merge_value-Merged (some (list xs)) none_value = refl
merge_value-Merged (some (list xs)) (str s) = refl
merge_value-Merged (some (list xs)) (boolean b) = refl
merge_value-Merged (some (list xs)) (int n) = refl
merge_value-Merged (some (list xs)) (dict e) = refl
merge_value-Merged (some (dict d)) none_value = refl
merge_value-Merged (some (dict d)) (str s) = refl
merge_value-Merged (some (dict d)) (boolean b) = refl
merge_value-Merged (some (dict d)) (int n) = refl
merge_value-Merged (some (dict d)) (list ys) = refl

-- If no key stands twice in `a`, then none stands twice in the merge of any `b` onto it.
pub deep_merge-IsUnique : (a b : Dict) → IsUnique a → IsUnique (deep_merge a b)
unfolding deep_merge
deep_merge-IsUnique a empty h = h
deep_merge-IsUnique a (bind k vb b) h =
    deep_merge-IsUnique (set k (merge_value (get k a) vb) a) b
      (set-IsUnique k (merge_value (get k a) vb) a h)

get-merge_loop :
    (k : Text) (a b : Dict)
    → IsUnique b
    → (vb : Option Value) → get k b ≡ vb
    → Merged (get k a) vb (get k (deep_merge a b))
unfolding deep_merge IsUnique get Merged
get-merge_loop k a empty h none e = refl
get-merge_loop k a empty h (some v) e = cc
get-merge_loop k a (bind j w b) h vb e = elim (Bool-cases (j == k)) [
  | inl same ↦
      let own = (text_beq_iff j k).0 same in
      let found : some w ≡ vb = rw same at e in
      let gone : get k b ≡ none = ground (arith, own, h.0) in
      let there = get-set j k (merge_value (get j a) w) a ∙ rw same refl in
      let rest = get-merge_loop k (set j (merge_value (get j a) w) a) b h.1 none gone ∙ there in
      subst (λ z. Merged (get k a) z (get k (deep_merge a (bind j w b)))) found
        (subst (λ z. Merged (get k a) (some w) z) (sym rest)
          (subst (λ z. Merged (get k a) (some w) (some (merge_value (get z a) w))) (sym own)
            (merge_value-Merged (get k a) w)))
  | inr other ↦
      let there = get-set j k (merge_value (get j a) w) a ∙ rw other refl in
      subst (λ z. Merged z vb (get k (deep_merge a (bind j w b)))) there
        (get-merge_loop k (set j (merge_value (get j a) w) a) b h.1 vb (rw other at e))
]

-- For every key, the merge of `b` onto `a` has the value of the one dict that has the key. Where both
-- have it, two lists are joined with that of `a` in front, two dicts are merged, that of `b` onto that of
-- `a`, and of two other values `b`'s is taken.
pub get-deep_merge :
    (k : Text) (a b : Dict) → IsUnique b → Merged (get k a) (get k b) (get k (deep_merge a b))
get-deep_merge k a b h = get-merge_loop k a b h (get k b) refl

keys_of_merge : List Text → List Text → List Text
keys_of_merge ks [] = ks
keys_of_merge ks (j ∷ js) = keys_of_merge (if contains j ks then ks else ks ++ (j ∷ [])) js

keys-deep_merge_loop : (a b : Dict) → keys (deep_merge a b) ≡ keys_of_merge (keys a) (keys b)
unfolding deep_merge keys keys_of_merge
keys-deep_merge_loop a empty = refl
keys-deep_merge_loop a (bind k vb b) =
    keys-deep_merge_loop (set k (merge_value (get k a) vb) a) b
    ∙ ap (λ ks. keys_of_merge ks (keys b)) (keys-set k (merge_value (get k a) vb) a)

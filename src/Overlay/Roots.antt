-- ===== src/Overlay/Roots.antt =====
-- tools/bp2cmake/bp2cmake/overlay.py: what `__post_init__` lets through.
use dalvikvm_multiplatform.Common.{
  ◌≡◌, ◌≢◌, refl, ◌⊎◌, ◌==◌, sym, ◌∙◌, ap, ℕ, ◌≤◌, Bool, true, false, ◌||◌, List, [], ◌∷◌, ltb,
  length, text_eq, contains, dedupe, dedupe_from, IsNodup, Text, value_error, ok, err, All,
  Bool-cases, inl, inr, arith, eq_self,
}
use dalvikvm_multiplatform.Overlay.{Overlay, any_empty, checked}

true-false : true ≢ false
true-false h = cc

seen_none : (a : Text) → contains a [] ≡ true → ⊥
unfolding contains
seen_none a h = true-false (sym h)

dedupe_from-length : (seen xs : List Text) → length (dedupe_from seen xs) ≤ length xs
unfolding dedupe_from
dedupe_from-length seen [] = omega arith
dedupe_from-length seen (x ∷ xs) =
    ground (arith, dedupe_from-length seen xs, dedupe_from-length (x ∷ seen) xs)

abbrev Fresh : List Text → List Text → Type 0
Fresh seen xs = (a : Text) → contains a seen ≡ true → contains a xs ≡ false

full-IsNodup :
    (seen xs : List Text) → length xs ≤ length (dedupe_from seen xs) → IsNodup xs × Fresh seen xs
unfolding dedupe_from IsNodup contains
full-IsNodup seen [] h = (tt, λ a s. refl)
full-IsNodup seen (x ∷ xs) h = elim (Bool-cases (contains x seen)) [
  | inl old ↦ absurd (crowded old)
  | inr new ↦
      let (rest, fresh) = full-IsNodup (x ∷ seen) xs (ground (arith, new)) in
      ((fresh x (ground (arith, eq_self x)), rest), λ a s. apart a s new (fresh a (ground arith)))
]
  where
    crowded : contains x seen ≡ true → ⊥
    crowded old = absurd (ground (arith, dedupe_from-length seen xs))

    apart :
        (a : Text)
        → contains a seen ≡ true
        → contains x seen ≡ false
        → contains a xs ≡ false
        → contains a (x ∷ xs) ≡ false
    apart a s new f = elim (Bool-cases (x == a)) [
      | inl same ↦ absurd (
          true-false (sym s ∙ ap (λ t. contains t seen) (sym ((text_eq.beq_iff x a).0 same)) ∙ new))
      | inr other ↦ ground arith
    ]

nodup-full :
    (seen xs : List Text) → IsNodup xs → Fresh seen xs → length xs ≤ length (dedupe_from seen xs)
unfolding dedupe_from IsNodup contains
nodup-full seen [] n f = omega arith
nodup-full seen (x ∷ xs) n f = elim (Bool-cases (contains x seen)) [
  | inl old ↦ absurd (true-false (sym (eq_self x) ∙ head_apart (x == x) (contains x xs) (f x old)))
  | inr new ↦ ground (arith, nodup-full (x ∷ seen) xs n.1 later)
]
  where
    head_apart : (b c : Bool) → (b || c) ≡ false → b ≡ false
    head_apart b c h = ground arith

    tail_apart : (b c : Bool) → (b || c) ≡ false → c ≡ false
    tail_apart b c h = ground arith

    later : Fresh (x ∷ seen) xs
    later a s = elim (Bool-cases (x == a)) [
      | inl same ↦ rw (sym ((text_eq.beq_iff x a).0 same)) n.0
      | inr other ↦ tail_apart (x == a) (contains a xs) (f a (ground arith))
    ]

any_empty-All : (xs : List Text) → any_empty xs ≡ false → All (λ s. s ≢ []) xs
unfolding any_empty
any_empty-All [] h = tt
any_empty-All ([] ∷ xs) h = cc
any_empty-All ((c ∷ s) ∷ xs) h = ((λ e. cc), any_empty-All xs h)

any_empty-not_All : (xs : List Text) → any_empty xs ≡ true → All (λ s. s ≢ []) xs → ⊥
unfolding any_empty
any_empty-not_All [] h a = true-false (sym h)
any_empty-not_All ([] ∷ xs) h a = a.0 refl
any_empty-not_All ((c ∷ s) ∷ xs) h a = any_empty-not_All xs h a.1

-- `__post_init__` lets an overlay through, as it is, if no root stands twice and none is the empty
-- text. If this is not so, it raises a ValueError.
pub checked-IsNodup :
    (ov : Overlay)
    → let good = IsNodup ov.product_root_modules × All (λ s. s ≢ []) ov.product_root_modules in
      ((checked ov ≡ ok ov) × good) ⊎ ((checked ov ≡ err value_error) × (¬ good))
unfolding checked dedupe
checked-IsNodup ov = elim (Bool-cases (any_empty ov.product_root_modules)) [
  | inl gap ↦ inr (rw gap refl, λ g. any_empty-not_All ov.product_root_modules gap g.1)
  | inr named ↦
      elim (Bool-cases
        (ltb (length (dedupe_from [] ov.product_root_modules)) (length ov.product_root_modules))) [
          | inl twice ↦ inr (
            rw (named, twice) refl,
            λ g. absurd (fewer twice (nodup-full [] ov.product_root_modules g.0 none_seen)),
          )
          | inr once ↦ inl (
            rw (named, once) refl,
            (
              (full-IsNodup [] ov.product_root_modules (all_there once)).0,
              any_empty-All ov.product_root_modules named,
            ),
          )
        ]
]
  where
    fewer : {m n : ℕ} → ltb m n ≡ true → n ≤ m → ⊥
    fewer h k = absurd (ground arith)

    all_there : {m n : ℕ} → ltb m n ≡ false → n ≤ m
    all_there h = ground arith

    none_seen : Fresh [] ov.product_root_modules
    none_seen a s = absurd (seen_none a s)

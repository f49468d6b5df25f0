-- ===== src/BuildArt/Links/Inventory.antt =====
-- tools/build_art.py: the audit and the staging read the same products from Ninja's list of targets.
use dalvikvm_multiplatform.Common.{
  Option, none, some, List, [], ◌∷◌, if_ind, ◌==◌, text_eq, map, Option-cases, Bool-cases, inl, inr,
  text_leb, Text, codes, Assoc, find, store, unknown_language, build_frontend_error, Error, Ends,
  returned, raised, Ends-bind, Ends-map, ◌≡◌, refl, ap, ◌∙◌,
}
use dalvikvm_multiplatform.Target.{TargetProfile}
use dalvikvm_multiplatform.Overlay.{has_sub}
use dalvikvm_multiplatform.BuildArt.Options.{refuse}
use dalvikvm_multiplatform.BuildArt.Links.{
  is_c_rule, splitlines, insert_item, sorted_items, output_of_line, declare_product, product_loop,
  parse_ninja_product_outputs, language_of, declare_link, link_loop, parse_ninja_link_outputs,
}

-- A declared output without its language.
abbrev kinds : Assoc (Text × Text) → Assoc Text
kinds d = map (λ (e : Text × (Text × Text)). (e.0, e.1.0)) d

abbrev kind_part : Option (Text × Text) → Option Text
kind_part none = none
kind_part (some (kind, language)) = some kind

find-kinds : (name : Text) (d : Assoc (Text × Text)) → find name (kinds d) ≡ kind_part (find name d)
unfolding find
find-kinds name [] = refl
find-kinds name ((n, (k, l)) ∷ d) = elim (Bool-cases (n == name)) [
  | inl same ↦ rw same refl
  | inr other ↦ rw other (find-kinds name d)
]

kinds-store :
    (name kind language : Text) (d : Assoc (Text × Text))
    → kinds (store name (kind, language) d) ≡ store name kind (kinds d)
unfolding store
kinds-store name kind language [] = refl
kinds-store name kind language ((n, (k, l)) ∷ d) = elim (Bool-cases (n == name)) [
  | inl same ↦ rw same refl
  | inr other ↦ rw other (ap (λ r. (n, k) ∷ r) (kinds-store name kind language d))
]

kinds-insert_item :
    (name kind language : Text) (d : Assoc (Text × Text))
    → kinds (insert_item (name, (kind, language)) d) ≡ insert_item (name, kind) (kinds d)
unfolding insert_item
kinds-insert_item name kind language [] = refl
kinds-insert_item name kind language ((n, (k, l)) ∷ d) = elim (Bool-cases (text_leb name n)) [
  | inl le ↦ rw le refl
  | inr gt ↦ rw gt (ap (λ r. (n, k) ∷ r) (kinds-insert_item name kind language d))
]

kinds-sorted_items : (d : Assoc (Text × Text)) → kinds (sorted_items d) ≡ sorted_items (kinds d)
unfolding sorted_items
kinds-sorted_items [] = refl
kinds-sorted_items ((n, (k, l)) ∷ d) =
    kinds-insert_item n k l (sorted_items d) ∙ ap (insert_item (n, k)) (kinds-sorted_items d)

-- The error of a link whose language is not known.
abbrev pub IsUnknownLanguage : Error → Type 0
IsUnknownLanguage x = (name : Text) × (x ≡ build_frontend_error (unknown_language name))

module _ (lower : Text → Text) (target : TargetProfile) where
  language_of-Ends :
      (name rule : Text)
      → Ends IsUnknownLanguage (λ l. Unit {0}) (language_of lower target name rule)
  unfolding language_of refuse
  language_of-Ends name rule =
      let P = Ends {A = Text} IsUnknownLanguage (λ l. Unit {0}) in
      if_ind P (has_sub (codes "CXX_") rule) (λ _. returned tt)
        λ _. if_ind P (is_c_rule rule) (λ _. returned tt) (λ _. raised (name, refl))

  declare_link-Ends :
      (o : Option (Text × Text × Text)) (d : Assoc (Text × Text))
      → Ends IsUnknownLanguage
          (λ d'. kinds d' ≡ declare_product lower target o (kinds d))
          (declare_link lower target o d)
  unfolding declare_link declare_product
  declare_link-Ends none d = returned refl
  declare_link-Ends (some (name, kind, rule)) d = elim (Option-cases (find name d)) [
    | inl e ↦
        let e' = find-kinds name d ∙ ap kind_part e in
        rw (e', e, declare_link, declare_product)
          (Ends-bind (language_of-Ends name rule) λ l _. returned (kinds-store name kind l d))
    | inr (k, e) ↦
        let e' = find-kinds name d ∙ ap kind_part e in
        rw (e', e, declare_link, declare_product) (returned refl)
  ]

  link_loop-Ends :
      (lines : List Text) (d : Assoc (Text × Text))
      → Ends IsUnknownLanguage
          (λ d'. kinds d' ≡ product_loop lower target lines (kinds d))
          (link_loop lower target lines d)
  unfolding link_loop product_loop
  link_loop-Ends [] d = returned refl
  link_loop-Ends (line ∷ lines) d =
      Ends-bind (declare_link-Ends (output_of_line lower target line) d) λ d₁ e.
        Ends-map (link_loop-Ends lines d₁) (λ d₂ e'. e' ∙ ap (product_loop lower target lines) e)
          (λ x q. q)

  -- The links that `_parse_ninja_link_outputs` returns are, without their languages, just the outputs
  -- of `_parse_ninja_product_outputs`, in the same order; or a rule of an unknown language is refused.
  pub parse_ninja_link_outputs-products :
      (output : Text)
      → Ends IsUnknownLanguage
          (λ links.
            map (λ (l : Text × Text × Text). (l.0, l.1)) links
            ≡ parse_ninja_product_outputs lower target output)
          (parse_ninja_link_outputs lower target output)
  unfolding parse_ninja_link_outputs parse_ninja_product_outputs
  parse_ninja_link_outputs-products output =
      Ends-bind (link_loop-Ends (splitlines output) [])
        λ d e. returned (flat (sorted_items d) ∙ kinds-sorted_items d ∙ ap sorted_items e)
    where
      flat :
          (d : Assoc (Text × Text))
          → map
              (λ (l : Text × Text × Text). (l.0, l.1))
              (map (λ (e : Text × (Text × Text)). (e.0, e.1.0, e.1.1)) d)
            ≡ kinds d
      flat [] = refl
      flat (e ∷ d) = ap (λ r. (e.0, e.1.0) ∷ r) (flat d)

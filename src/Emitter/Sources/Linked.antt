-- ===== src/Emitter/Sources/Linked.antt =====
-- tools/bp2cmake/bp2cmake/emitter.py: the targets that `_link_libs` gives.
use dalvikvm_multiplatform.Common.{
  ℕ, Bool, true, false, ◌&&◌, ◌||◌, List, [], ◌∷◌, ◌++◌, Bool-cases, inl, inr, ◌==◌, text_eq,
  contains, contains-append, contains-dedupe, dedupe-IsNodup, eq_self, IsNodup, Text, ◌≡◌, ◌↔◌,
  refl, sym, ap, ◌∙◌, arith, ok, >>=-eq-ok, ok-injective,
}
use dalvikvm_multiplatform.Model.{Module}
use dalvikvm_multiplatform.Overlay.{Overlay, policy_for, target_name}
use dalvikvm_multiplatform.Emitter.Resolver.{Resolver}
use dalvikvm_multiplatform.Emitter.Files.Absorbed.{names_of}
use dalvikvm_multiplatform.Emitter.Sources.{absorbed_by, linked_targets, link_libs, skipped_libs}

module _ (ov : Overlay) where
  -- The library is one of `libs`, its target is `t`, and it is not to be skipped.
  abbrev LinksAs : List Text → List Text → Text → Type 0
  LinksAs skip libs t =
      (lib : Text) × (contains lib libs ≡ true)
      × (contains lib skip ≡ false)
      × (target_name ov lib ≡ t)

  LinksAs-later :
      (skip : List Text) (lib : Text) (libs : List Text) (t : Text)
      → LinksAs skip libs t
      → LinksAs skip (lib ∷ libs) t
  unfolding contains
  LinksAs-later skip lib libs t (l, h, s, e) = (l, ground (arith, h), s, e)

  linked_targets-from :
      (skip libs : List Text) (t : Text)
      → contains t (linked_targets ov skip libs) ≡ true
      → LinksAs skip libs t
  unfolding linked_targets contains
  linked_targets-from skip [] t h = cc
  linked_targets-from skip (lib ∷ libs) t h = elim (Bool-cases (contains lib skip)) [
    | inl old ↦ LinksAs-later skip lib libs t (linked_targets-from skip libs t (rw old at h))
    | inr new ↦
        let h' = rw new at h in
        elim (Bool-cases (target_name ov lib == t)) [
          | inl same ↦ (
            lib,
            ground (arith, eq_self lib),
            new,
            (text_eq.beq_iff (target_name ov lib) t).0 same,
          )
          | inr other ↦
              LinksAs-later skip lib libs t
                (linked_targets-from skip libs t (ground (arith, h', other)))
        ]
  ]

  linked_targets-to :
      (skip libs : List Text) (t : Text)
      → LinksAs skip libs t
      → contains t (linked_targets ov skip libs) ≡ true
  unfolding linked_targets contains
  linked_targets-to skip [] t (l, h, s, e) = cc
  linked_targets-to skip (lib ∷ libs) t (l, h, s, e) = elim (Bool-cases (lib == l)) [
    | inl same ↦
        let eq = (text_eq.beq_iff lib l).0 same in
        rw (eq, s) (ground (arith, ap (λ x. x == t) e, eq_self t))
    | inr other ↦ ground (arith, linked_targets-to skip libs t (l, ground (arith, h, other), s, e))
  ]

module _ (ev : Resolver) (ov : Overlay) (f : ℕ) where
  -- The names of the modules whose sources are inlined, if any are.
  abbrev pub is_inlined : Module Text → List (Module Text) → Text → Bool
  is_inlined m deps lib =
      (policy_for ov m.name).absorb_whole_static
      && (contains lib (names_of deps) || contains lib m.whole_static_libs)

  inlined :
      (absorb : Bool) (deps : List (Module Text)) (whole : List Text) (lib : Text)
      → contains lib (skipped_libs absorb deps whole)
        ≡ (absorb && (contains lib (names_of deps) || contains lib whole))
  unfolding skipped_libs contains
  inlined false deps whole lib = refl
  inlined true deps whole lib = contains-append lib (names_of deps) whole

  -- What `_link_libs` returns for a module has no target twice. A target is there just if it is that
  -- of a shared or static library of the module which, where whole static libraries are absorbed, is
  -- none of those nor one of the modules that they stand for.
  pub link_libs-Linked :
      (m : Module Text) (libs : List Text)
      → link_libs ev ov f m ≡ ok libs
      → (deps : List (Module Text)) × (absorbed_by ev ov f m ≡ ok deps)
        × IsNodup libs
        × ((t : Text)
            → (contains t libs ≡ true) ↔ (
                (lib : Text) × (contains lib (m.shared_libs ++ m.static_libs) ≡ true)
                × (is_inlined m deps lib ≡ false)
                × (target_name ov lib ≡ t)))
  unfolding link_libs
  link_libs-Linked m libs e =
      let (deps, found, rest) = >>=-eq-ok (absorbed_by ev ov f m) _ e in
      let skip = skipped_libs (policy_for ov m.name).absorb_whole_static deps m.whole_static_libs in
      let raw = linked_targets ov skip (m.shared_libs ++ m.static_libs) in
      let same = λ (lib : Text).
        inlined (policy_for ov m.name).absorb_whole_static deps m.whole_static_libs lib in
      let eq = ok-injective rest in
      (
        deps,
        found,
        rw⁻¹ eq (dedupe-IsNodup raw),
        λ t. (
          λ h.
              let (lib, l, s, k) =
                linked_targets-from ov skip (m.shared_libs ++ m.static_libs) t
                  (sym (contains-dedupe t raw) ∙ ap (contains t) eq ∙ h) in
              (lib, l, sym (same lib) ∙ s, k),
          λ (lib, l, s, k).
              sym (ap (contains t) eq)
              ∙ contains-dedupe t raw
              ∙ linked_targets-to ov skip (m.shared_libs ++ m.static_libs) t
                  (lib, l, same lib ∙ s, k),
        ),
      )

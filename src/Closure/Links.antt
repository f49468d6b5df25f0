-- ===== src/Closure/Links.antt =====
-- tools/bp2cmake/bp2cmake/closure.py: what a module links through the modules that it absorbs.
use dalvikvm_multiplatform.Common.{
  ok-injective, true, false, Option, none, some, List, ◌∷◌, ◌==◌, text_eq, contains, eq_self, Text,
  ◌≡◌, sym, ◌∙◌, Bool-cases, ◌⊎◌, inl, inr, arith, Result, ok,
}
use dalvikvm_multiplatform.Model.{Module}
use dalvikvm_multiplatform.Overlay.{Overlay}
use dalvikvm_multiplatform.Closure.{effective_link_deps}
use dalvikvm_multiplatform.Closure.Reach.{Needs, links, absorbs, IsCaught}
use dalvikvm_multiplatform.Closure.Walks.{text_beq-eq}

module _ (ov : Overlay) (resolve : Text → Result (Module Text)) where
  -- What a module links that an absorbed name may resolve to.
  abbrev pub LinkedBy : Option (Module Text) → Text → Type 0
  LinkedBy none n = ⊥
  LinkedBy (some am) n = contains n (effective_link_deps ov am).0 ≡ true

  pub caught_links :
      (b n : Text) (o : Option (Module Text)) (am : Module Text)
      → IsCaught resolve b o
      → resolve b ≡ ok am
      → contains n (effective_link_deps ov am).0 ≡ true
      → LinkedBy o n
  caught_links b n none am c e h = absurd (c am e)
  caught_links b n (some am') am c e h = rw (ok-injective (sym c ∙ e)) h

  -- What is linked by one of the names `as_` that is no host library.
  abbrev pub LinkedByAny : List Text → Text → Type 0
  LinkedByAny as_ n =
      (a : Text) × (am : Module Text) × (contains a as_ ≡ true)
      × (contains a ov.global_policy.host_libs ≡ false)
      × (resolve a ≡ ok am)
      × (contains n (effective_link_deps ov am).0 ≡ true)

  pub later : (b : Text) (as_ : List Text) (n : Text) → LinkedByAny as_ n → LinkedByAny (b ∷ as_) n
  unfolding contains
  later b as_ n (x, am, h, k, e, l) = (x, am, ground arith, k, e, l)

  pub links_caught :
      (b : Text) (as_ : List Text) (n : Text) (o : Option (Module Text))
      → contains b ov.global_policy.host_libs ≡ false
      → IsCaught resolve b o
      → LinkedBy o n
      → LinkedByAny (b ∷ as_) n
  unfolding contains
  links_caught b as_ n none guest c h = absurd h
  links_caught b as_ n (some am) guest c h = (b, am, ground (arith, eq_self b), guest, c, h)

  -- What a name that is no host library links, or a later one does.
  pub first_or_later :
      (b : Text) (as_ : List Text) (n : Text)
      → LinkedByAny (b ∷ as_) n
      → ((am : Module Text) × (contains b ov.global_policy.host_libs ≡ false)
          × (resolve b ≡ ok am)
          × (contains n (effective_link_deps ov am).0 ≡ true))
        ⊎ LinkedByAny as_ n
  unfolding contains
  first_or_later b as_ n (x, am, h, k, e, l) = elim (Bool-cases (b == x)) [
    | inl same ↦ inl (am, rw (text_beq-eq b x same) k, rw (text_beq-eq b x same) e, l)
    | inr other ↦ inr (x, am, ground arith, k, e, l)
  ]

  -- What is linked or absorbed is what the module needs.
  pub all_needed :
      (name : Text) (m : Module Text)
      → resolve name ≡ ok m
      → (n : Text) → Needs ov resolve name n
      → (contains n (effective_link_deps ov m).0 ≡ true)
        ⊎ LinkedByAny (effective_link_deps ov m).1 n
  all_needed name m c n (links m' e h) = rw (ok-injective (sym c ∙ e)) (inl h)
  all_needed name m c n (absorbs m' a am e h g ea l) =
      rw (ok-injective (sym c ∙ e)) (inr (a, am, h, g, ea, l))

-- ===== src/Closure/Visits.antt =====
-- tools/bp2cmake/bp2cmake/closure.py: the loops of `visit`.
use dalvikvm_multiplatform.Common.{
  ℕ, ◌<◌, true, Option, none, some, List, [], ◌∷◌, if_ind, ◌==◌, text_eq, contains, eq_self, Text,
  ◌≡◌, sym, ◌∙◌, Bool-cases, ◌⊎◌, inl, inr, arith, Result, ok, ◌>>=◌, Ends, returned, Ends-bind,
  Ends-map,
}
use dalvikvm_multiplatform.Model.{Module}
use dalvikvm_multiplatform.Overlay.{Overlay}
use dalvikvm_multiplatform.Closure.{
  Walk, marked, effective_link_deps, visit_all, visit_links, visit_absorbed,
}
use dalvikvm_multiplatform.Closure.Reach.{IsEmitted, Reached, IsResolveFailure, caught-Ends}
use dalvikvm_multiplatform.Closure.Sound.{Sound, OnPath}
use dalvikvm_multiplatform.Closure.Links.{
  LinkedBy, LinkedByAny, caught_links, later, links_caught, first_or_later,
}
use dalvikvm_multiplatform.Closure.Walks.{
  Grows, Grows-self, Grows-trans, text_beq-eq, unmarked, unmarked-Grows, true-false,
}

module _ (ov : Overlay) (resolve : Text → Result (Module Text)) (roots : List Text) where
  -- `w'` is sound and grew from `w`, and each of the modules `P` that is to emit is marked.
  pub record Visits (P : Text → Type 0) (w w' : Walk) : Type 0 where
    pub sound : Sound ov resolve roots w'
    pub growth : Grows w w'
    pub marks : (n : Text) → P n → IsEmitted ov resolve n → marked w' n ≡ true

  -- The modules `P` may be visited from `w`: those to emit are reached, and what is being visited
  -- leads to them.
  abbrev pub Allowed : (Text → Type 0) → Walk → Type 0
  Allowed P w =
      (n : Text)
      → P n
      → IsEmitted ov resolve n
      → Reached ov resolve roots n × OnPath ov resolve roots w n

  pub Grows-OnPath :
      {w w' : Walk} (n : Text)
      → Grows w w'
      → OnPath ov resolve roots w n
      → OnPath ov resolve roots w' n
  Grows-OnPath n g path a m u = elim (g.fresh a m) [
    | inl old ↦ path a old (sym (g.kept a old) ∙ u)
    | inr d ↦ absurd (true-false (sym d ∙ u))
  ]

  pub Grows-Allowed : {P : Text → Type 0} {w w' : Walk} → Grows w w' → Allowed P w → Allowed P w'
  Grows-Allowed g a n p x = let (r, path) = a n p x in (r, Grows-OnPath n g path)

  abbrev pub Runs : (Text → Type 0) → Walk → Result Walk → Type 0
  Runs P w r = Ends (IsResolveFailure resolve) (Visits P w) r

  -- Two runs one after the other.
  pub then-Runs :
      {P Q R : Text → Type 0} {w : Walk} {r : Result Walk} {f : Walk → Result Walk}
      → Runs P w r
      → ((w₁ : Walk) → Visits P w w₁ → Runs Q w₁ (f w₁))
      → ((n : Text) → R n → P n ⊎ Q n)
      → Runs R w (r >>= f)
  then-Runs {w} h k both = Ends-bind h λ w₁ v.
      Ends-map (k w₁ v)
        (λ w₂ u. record {
          sound = u.sound;
          growth = Grows-trans v.growth u.growth;
          marks = λ n m e. elim (both n m) [
            | inl p ↦ u.growth.grows n (v.marks n p e)
            | inr q ↦ u.marks n q e
          ];
        })
        λ x q. q

  -- A run that visits nothing.
  pub stays :
      {P : Text → Type 0} {w : Walk}
      → Sound ov resolve roots w
      → ((n : Text) → P n → IsEmitted ov resolve n → marked w n ≡ true)
      → Runs P w (ok w)
  stays {w = w} s h = returned (record { sound = s; growth = Grows-self w; marks = h })

  module _ (names : List Text) where
    -- `go` visits any module while fewer than `f` names are unmarked.
    abbrev pub Goes : ℕ → (Text → Walk → Result Walk) → Type 0
    Goes f go =
        (name : Text) (w : Walk)
        → Sound ov resolve roots w
        → Allowed (λ n. n ≡ name) w
        → unmarked names w < f
        → Runs (λ n. n ≡ name) w (go name w)

    pub fewer : {w w' : Walk} (f : ℕ) → Grows w w' → unmarked names w < f → unmarked names w' < f
    fewer f g le = ground (arith, unmarked-Grows names g)

    module _ (f : ℕ) (go : Text → Walk → Result Walk) (goes : Goes f go) where
      pub visit_all-Runs :
          (ds : List Text) (w : Walk)
          → Sound ov resolve roots w
          → Allowed (λ n. contains n ds ≡ true) w
          → unmarked names w < f
          → Runs (λ n. contains n ds ≡ true) w (visit_all go ds w)
      unfolding visit_all contains
      visit_all-Runs [] w s a le = stays s λ n h _. cc
      visit_all-Runs (d ∷ ds) w s a le =
          then-Runs (goes d w s (λ n e. a n (rw e (ground (arith, eq_self d)))) le)
            (λ w₁ v.
              visit_all-Runs ds w₁ v.sound (Grows-Allowed v.growth (λ n h. a n (ground arith)))
                (fewer f v.growth le))
            λ n h. elim (Bool-cases (d == n)) [
              | inl same ↦ inl (sym (text_beq-eq d n same))
              | inr other ↦ inr (ground arith)
            ]

      pub visit_links-Runs :
          (o : Option (Module Text)) (w : Walk)
          → Sound ov resolve roots w
          → Allowed (LinkedBy ov resolve o) w
          → unmarked names w < f
          → Runs (LinkedBy ov resolve o) w (visit_links ov resolve go o w)
      unfolding visit_links
      visit_links-Runs none w s a le = stays s λ n h _. absurd h
      visit_links-Runs (some am) w s a le = visit_all-Runs (effective_link_deps ov am).0 w s a le

      pub visit_absorbed-Runs :
          (as_ : List Text) (w : Walk)
          → Sound ov resolve roots w
          → Allowed (LinkedByAny ov resolve as_) w
          → unmarked names w < f
          → Runs (LinkedByAny ov resolve as_) w (visit_absorbed ov resolve go as_ w)
      unfolding visit_absorbed contains
      visit_absorbed-Runs [] w s a le = stays s λ n h _. cc
      visit_absorbed-Runs (b ∷ as_) w s a le =
          if_ind (Runs (LinkedByAny ov resolve (b ∷ as_)) w) (contains b ov.global_policy.host_libs)
            (λ host.
              Ends-map (visit_absorbed-Runs as_ w s (λ n h. a n (later ov resolve b as_ n h)) le)
                (λ w' v. record {
                  sound = v.sound;
                  growth = v.growth;
                  marks = λ n h. v.marks n (elim (first_or_later ov resolve b as_ n h) [
                    | inl (am, k, e, l) ↦ absurd (true-false (sym host ∙ k))
                    | inr k ↦ k
                  ]);
                })
                λ x q. q)
            λ guest. Ends-bind (caught-Ends resolve b) λ o c.
              then-Runs
                (visit_links-Runs o w s (λ n h. a n (links_caught ov resolve b as_ n o guest c h))
                  le)
                (λ w₁ v.
                  visit_absorbed-Runs as_ w₁ v.sound
                    (Grows-Allowed v.growth (λ n h. a n (later ov resolve b as_ n h)))
                    (fewer f v.growth le))
                λ n h. elim (first_or_later ov resolve b as_ n h) [
                  | inl (am, k, e, l) ↦ inl (caught_links ov resolve b n o am c e l)
                  | inr k ↦ inr k
                ]

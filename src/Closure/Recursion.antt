-- ===== src/Closure/Recursion.antt =====
-- tools/bp2cmake/bp2cmake/closure.py: the recursion of `visit`.
use dalvikvm_multiplatform.Common.{
  Bool-cases, inl, inr, ◌==◌, ok-injective, ℕ, zero, suc, ◌<◌, true, false, not, ◌||◌, Option, none,
  some, List, if_ind, text_eq, contains, eq_self, Text, ◌≡◌, refl, ap, sym, ◌∙◌, arith, subst,
  >>=-assoc, Result, ok, ◌>>=◌, returned, Ends-bind,
}
use dalvikvm_multiplatform.Model.{Module}
use dalvikvm_multiplatform.Overlay.{Overlay}
use dalvikvm_multiplatform.Closure.{
  Walk, marked, is_done, enter, leave, effective_link_deps, is_buildable, visit_all, visit_absorbed,
  visit_module, visit,
}
use dalvikvm_multiplatform.Closure.Reach.{
  IsEmitted, Needs, links, absorbs, Reached, need, here, onward, IsCaught, caught-Ends,
}
use dalvikvm_multiplatform.Closure.Sound.{Sound, OnPath, enter-Sound, leave-Sound}
use dalvikvm_multiplatform.Closure.Links.{all_needed}
use dalvikvm_multiplatform.Closure.Visits.{
  Visits, Allowed, Grows-OnPath, Grows-Allowed, Runs, then-Runs, stays, Goes, fewer, visit_all-Runs,
  visit_absorbed-Runs,
}
use dalvikvm_multiplatform.Closure.Walks.{
  Grows-visit, text_beq-eq, marked-enter, marked-leave, is_done-enter, unmarked, unmarked-enter,
  true-false,
}

module _ (ov : Overlay) (resolve : Text → Result (Module Text)) (roots names : List Text) where
  module _ (f : ℕ) (go : Text → Walk → Result Walk) (goes : Goes ov resolve roots names f go) where
    -- The two loops, from where the module is entered.
    loops-Runs :
        (name : Text) (m : Module Text) (w : Walk)
        → resolve name ≡ ok m
        → Sound ov resolve roots w
        → Reached ov resolve roots name
        → OnPath ov resolve roots w name
        → unmarked names w < f
        → Runs ov resolve roots (Needs ov resolve name) w (do
          w₁ ← visit_all go (effective_link_deps ov m).0 w
          visit_absorbed ov resolve go (effective_link_deps ov m).1 w₁)
    loops-Runs name m w c s r path le =
        then-Runs ov resolve roots
          (visit_all-Runs ov resolve roots names f go goes (effective_link_deps ov m).0 w s
            (λ n h x. (need r (links m c h) x, λ a k u. onward (path a k u) (links m c h) x)) le)
          (λ w₁ v.
            visit_absorbed-Runs ov resolve roots names f go goes (effective_link_deps ov m).1 w₁
              v.sound
              (Grows-Allowed ov resolve roots v.growth (λ n (b, am, h, g, e, l) x. (
                need r (absorbs m b am c h g e l) x,
                λ a k u. onward (path a k u) (absorbs m b am c h g e l) x,
              )))
              (fewer ov resolve roots names f v.growth le))
          (all_needed ov resolve name m c)

    visit_module-Runs :
        (name : Text) (o : Option (Module Text)) (w : Walk)
        → IsCaught resolve name o
        → contains name ov.global_policy.host_libs ≡ false
        → marked w name ≡ false
        → Sound ov resolve roots w
        → Allowed ov resolve roots (λ n. n ≡ name) w
        → (IsEmitted ov resolve name → unmarked names (enter name w) < f)
        → Runs ov resolve roots (λ n. n ≡ name) w (visit_module ov resolve go name o w)
    unfolding visit_module
    visit_module-Runs name none w c guest new s a le =
        stays ov resolve roots s λ n e x. absurd (unresolved (subst (IsEmitted ov resolve) e x))
      where
        unresolved : IsEmitted ov resolve name → ⊥
        unresolved (g, (m, r, b)) = c m r
    visit_module-Runs name (some m) w c guest new s a le =
        if_ind (Runs ov resolve roots (λ n. n ≡ name) w) (not (is_buildable ov m))
          (λ dull.
            stays ov resolve roots s
              λ n e x. absurd (unbuilt dull (subst (IsEmitted ov resolve) e x)))
          λ built. entered (guest, (m, c, ground arith))
      where
        unbuilt : not (is_buildable ov m) ≡ true → IsEmitted ov resolve name → ⊥
        unbuilt dull (g, (m', r, b)) =
            true-false (sym b ∙ ap (is_buildable ov) (ok-injective (sym r ∙ c)) ∙ ground arith)

        entered :
            IsEmitted ov resolve name
            → Runs ov resolve roots
                (λ n. n ≡ name)
                w
                (do
                  w₁ ← visit_all go (effective_link_deps ov m).0 (enter name w)
                  w₂ ← visit_absorbed ov resolve go (effective_link_deps ov m).1 w₁
                  ok (leave name w₂))
        entered x =
            subst (Runs ov resolve roots (λ n. n ≡ name) w)
              (>>=-assoc (visit_all go (effective_link_deps ov m).0 (enter name w))
                (visit_absorbed ov resolve go (effective_link_deps ov m).1)
                (λ w₂. ok (leave name w₂)))
              (Ends-bind
                (loops-Runs name m (enter name w) c
                  (enter-Sound ov resolve roots name w s new x (a name refl x).0) (a name refl x).0
                  (enter_path (a name refl x).1) (le x))
                λ w₂ v. returned (left x w₂ v))
          where
            enter_path :
                OnPath ov resolve roots w name → OnPath ov resolve roots (enter name w) name
            enter_path path b k u = elim (Bool-cases (name == b)) [
              | inl same ↦ rw (text_beq-eq name b same) here
              | inr other ↦
                  path b (ground (arith, marked-enter name b w))
                    (ground (arith, is_done-enter name b w))
            ]

            left :
                IsEmitted ov resolve name
                → (w₂ : Walk) → Visits ov resolve roots (Needs ov resolve name) (enter name w) w₂
                → Visits ov resolve roots (λ n. n ≡ name) w (leave name w₂)
            left x w₂ v = record {
              sound =
                  leave-Sound ov resolve roots name w₂ v.sound undone inside v.marks
                    (Grows-OnPath ov resolve roots name v.growth (enter_path (a name refl x).1));
              growth = Grows-visit name new v.growth;
              marks = λ n e _. rw (e) (ground (arith, marked-leave name name w₂, eq_self name));
            }
              where
                entering : marked (enter name w) name ≡ true
                entering = ground (arith, marked-enter name name w, eq_self name)

                inside : marked w₂ name ≡ true
                inside = v.growth.grows name entering

                undone : is_done w₂ name ≡ false
                undone =
                    v.growth.kept name entering
                    ∙ ground (arith, is_done-enter name name w, eq_self name)

  -- With names that hold every module to emit, `visit` on fuel above the number of those that are not
  -- marked never meets the end of the stack.
  pub visit-Goes :
      ((n : Text) → IsEmitted ov resolve n → contains n names ≡ true)
      → (f : ℕ) → Goes ov resolve roots names f (visit ov resolve f)
  unfolding visit
  visit-Goes named zero name w s a le = absurd (omega arith)
  visit-Goes named (suc f) name w s a le =
      if_ind (Runs ov resolve roots (λ n. n ≡ name) w)
        (contains name ov.global_policy.host_libs || marked w name)
        (λ seen.
          stays ov resolve roots s
            (λ n e x. rw e (at_seen seen (subst (IsEmitted ov resolve) e x))))
        λ unseen. Ends-bind (caught-Ends resolve name) λ o c.
          visit_module-Runs f (visit ov resolve f) (visit-Goes named f) name o w c (ground arith)
            (ground arith) s a (λ x. smaller (ground arith) x)
    where
      at_seen :
          (contains name ov.global_policy.host_libs || marked w name) ≡ true
          → IsEmitted ov resolve name
          → marked w name ≡ true
      at_seen seen (g, (m, r, b)) = ground arith

      smaller :
          marked w name ≡ false → IsEmitted ov resolve name → unmarked names (enter name w) < f
      smaller new x = ground (arith, unmarked-enter names name w new (named name x))

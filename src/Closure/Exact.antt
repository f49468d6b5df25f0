-- ===== src/Closure/Exact.antt =====
-- tools/bp2cmake/bp2cmake/closure.py: the walk holds just the modules that the roots need.
use dalvikvm_multiplatform.Common.{
  ℕ, ◌≤◌, ◌<◌, true, false, List, [], ◌∷◌, text_eq, contains, find, IsNodup, Text, ◌≡◌, ◌↔◌, refl,
  sym, ◌∙◌, inl, inr, arith, length, Result, Ends, returned, Ends-bind, Ends-map,
}
use dalvikvm_multiplatform.Model.{Module}
use dalvikvm_multiplatform.Overlay.{Overlay}
use dalvikvm_multiplatform.Closure.{
  Walk, marked, marked_of, is_done, done_of, visit, dependency_closure,
}
use dalvikvm_multiplatform.Closure.Reach.{
  IsEmitted, Reached, root, need, IsResolveFailure, DepsFirst,
}
use dalvikvm_multiplatform.Closure.Walks.{is_done-marked, true-false, unmarked}
use dalvikvm_multiplatform.Closure.Sound.{Sound}
use dalvikvm_multiplatform.Closure.Visits.{Visits, visit_all-Runs}
use dalvikvm_multiplatform.Closure.Recursion.{visit-Goes}

abbrev start : Walk
start = record { state = []; order = [] }

unmarked-length : (names : List Text) (w : Walk) → unmarked names w ≤ length names
unfolding unmarked
unmarked-length [] w = omega arith
unmarked-length (n ∷ names) w = ground (arith, unmarked-length names w)

start-unmarked : (n : Text) → marked start n ≡ false
unfolding marked marked_of find
start-unmarked n = refl

start-Sound :
    (ov : Overlay) (resolve : Text → Result (Module Text)) (roots : List Text)
    → Sound ov resolve roots start
unfolding is_done done_of marked marked_of contains IsNodup find
start-Sound ov resolve roots = record {
  listed = λ n. refl;
  nodup = tt;
  emitted = λ n h. cc;
  closed = λ n d h k x. cc;
  first = tt;
}

module _ (ov : Overlay) (resolve : Text → Result (Module Text)) (roots : List Text) where
  abbrev pub Closes : List Text → Type 0
  Closes order =
      IsNodup order × ((n : Text) → (contains n order ≡ true) ↔ Reached ov resolve roots n)

  visited-Closes :
      (w : Walk) → Visits ov resolve roots (λ n. contains n roots ≡ true) start w → Closes w.order
  visited-Closes w v = (
    v.sound.nodup,
    λ n. (λ h. from n (sym (v.sound.listed n) ∙ h), λ r. v.sound.listed n ∙ to n r),
  )
    where
      from : (n : Text) → is_done w n ≡ true → Reached ov resolve roots n
      from n h = (v.sound.emitted n (is_done-marked w n h)).1

      finished : (n : Text) → marked w n ≡ true → is_done w n ≡ true
      finished n h = elim (v.growth.fresh n h) [
        | inl old ↦ absurd (true-false (sym old ∙ start-unmarked n))
        | inr d ↦ d
      ]

      to : (n : Text) → Reached ov resolve roots n → is_done w n ≡ true
      to n (root h x) = finished n (v.marks n h x)
      to d (need {n} r k x) = finished d (v.sound.closed n d (to n r) k x)

module _ (ov : Overlay) (resolve : Text → Result (Module Text)) (roots names : List Text)
    (named : (n : Text) → IsEmitted ov resolve n → contains n names ≡ true) (f : ℕ)
    (enough : length names < f) where
  walk-Closes :
      Ends
        (IsResolveFailure resolve)
        (λ order. Closes ov resolve roots order × DepsFirst ov resolve [] order)
        (dependency_closure ov resolve f roots)
  unfolding dependency_closure
  walk-Closes =
      Ends-bind
        (visit_all-Runs ov resolve roots names f (visit ov resolve f)
          (visit-Goes ov resolve roots names named f) roots start (start-Sound ov resolve roots)
          (λ n h x. (root h x, λ a m u. absurd (true-false (sym m ∙ start-unmarked a))))
          (ground (arith, unmarked-length names start)))
        λ w v. returned (visited-Closes ov resolve roots w v, v.sound.first)

  -- Let `names` hold every module that is to be emitted. On fuel above their number the closure of
  -- some roots returns, or raises an error other than EvalError that the resolution of a module
  -- raised. What it returns has no name twice, and holds a name just if that is reached: it is to be
  -- emitted, and is a root or needed by a name that is reached.
  pub dependency_closure-Closes :
      Ends
        (IsResolveFailure resolve)
        (Closes ov resolve roots)
        (dependency_closure ov resolve f roots)
  dependency_closure-Closes = Ends-map walk-Closes (λ order h. h.0) (λ x q. q)

  -- Let `names` hold every module that is to be emitted. On fuel above their number the closure of
  -- some roots returns, or raises an error other than EvalError that the resolution of a module
  -- raised. In what it returns, each module stands behind the modules to emit that it needs, but for
  -- those that need it in turn, directly or through others.
  pub dependency_closure-DepsFirst :
      Ends
        (IsResolveFailure resolve)
        (DepsFirst ov resolve [])
        (dependency_closure ov resolve f roots)
  dependency_closure-DepsFirst = Ends-map walk-Closes (λ order h. h.1) (λ x q. q)

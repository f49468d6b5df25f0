-- ===== src/Closure.antt =====
-- tools/bp2cmake/bp2cmake/closure.py: the modules to emit for some roots, dependencies first.
pub mod Reach
pub mod Walks
pub mod Sound
pub mod Links
pub mod Visits
pub mod Recursion
pub mod Exact
use dalvikvm_multiplatform.Common.{
  ℕ, zero, suc, Bool, true, false, not, ◌&&◌, ◌||◌, Option, none, some, List, [], ◌∷◌, ◌++◌,
  if◌then◌else◌, text_eq, contains, without, Text, Assoc, find, store, eval_error, recursion_error,
  Result, ok, err, ◌>>=◌,
}
use dalvikvm_multiplatform.Model.{Module, effective_srcs}
use dalvikvm_multiplatform.Overlay.{Overlay, policy_for}

-- `xs = [d for d in libs if d not in drop]` and `xs += [d for d in new if d not in xs]`.
unfoldable pub edited : List Text → List Text → List Text → List Text
edited drop new libs = without drop libs ++ without (without drop libs) new

unfoldable pub linked_libs : Overlay → Module Text → List Text
linked_libs ov m =
    edited (policy_for ov m.name).remove_shared_libs (policy_for ov m.name).add_shared_libs
      m.shared_libs
    ++ edited (policy_for ov m.name).remove_static_libs (policy_for ov m.name).add_static_libs
        m.static_libs

-- `_effective_link_deps`: what is linked and what is absorbed.
unfoldable pub effective_link_deps : Overlay → Module Text → List Text × List Text
effective_link_deps ov m =
    if (policy_for ov m.name).absorb_whole_static
    then (linked_libs ov m, m.whole_static_libs)
    else (linked_libs ov m ++ m.whole_static_libs, [])

unfoldable pub is_empty : List Text → Bool
is_empty [] = true
is_empty (x ∷ xs) = false

-- `_is_buildable`
unfoldable pub is_buildable : Overlay → Module Text → Bool
is_buildable ov m =
    if not (is_empty (effective_srcs m))
    then true
    else if not (is_empty (policy_for ov m.name).add_srcs)
    then true
    else (policy_for ov m.name).absorb_whole_static && not (is_empty m.whole_static_libs)

-- The values of the dict `state`.
pub data Mark : Type 0 where
  visiting finished : Mark

-- What `visit` mutates: the dict `state` and the list `order`.
pub record Walk : Type 0 where
  pub state : Assoc Mark
  pub order : List Text

unfoldable pub marked_of : Option Mark → Bool
marked_of none = false
marked_of (some k) = true

unfoldable pub done_of : Option Mark → Bool
done_of (some finished) = true
done_of _ = false

-- `state.get(name)` is one of the two marks, or is "done".
unfoldable pub marked : Walk → Text → Bool
marked w name = marked_of (find name w.state)

unfoldable pub is_done : Walk → Text → Bool
is_done w name = done_of (find name w.state)

-- `state[name] = "visiting"`
unfoldable pub enter : Text → Walk → Walk
enter name w = record { state = store name visiting w.state; order = w.order }

-- `state[name] = "done"` and `order.append(name)`
unfoldable pub leave : Text → Walk → Walk
leave name w = record { state = store name finished w.state; order = w.order ++ (name ∷ []) }

-- `try: ... except EvalError`: no module.
unfoldable pub caught : {A : Type 0} → Result A → Result (Option A)
caught (ok a) = ok (some a)
caught (err (eval_error x)) = ok none
caught (err x) = err x

-- The two loops of `visit`, with `visit` as `go`.
unfoldable pub visit_all : (Text → Walk → Result Walk) → List Text → Walk → Result Walk
visit_all go [] w = ok w
visit_all go (d ∷ ds) w = do w' ← go d w; visit_all go ds w'

-- `resolve` stands for `ev.resolve`.
module _ (ov : Overlay) (resolve : Text → Result (Module Text)) where
  -- The body of the loop over what is absorbed, where `a` resolves.
  unfoldable pub visit_links :
      (Text → Walk → Result Walk) → Option (Module Text) → Walk → Result Walk
  visit_links go none w = ok w
  visit_links go (some am) w = visit_all go (effective_link_deps ov am).0 w

  unfoldable pub visit_absorbed : (Text → Walk → Result Walk) → List Text → Walk → Result Walk
  visit_absorbed go [] w = ok w
  visit_absorbed go (a ∷ as_) w =
      if contains a ov.global_policy.host_libs
      then visit_absorbed go as_ w
      else (do o ← caught (resolve a); w' ← visit_links go o w; visit_absorbed go as_ w')

  -- `visit` from where `name` is resolved.
  unfoldable pub visit_module :
      (Text → Walk → Result Walk) → Text → Option (Module Text) → Walk → Result Walk
  visit_module go name none w = ok w
  visit_module go name (some m) w = if not (is_buildable ov m) then ok w else (do
    w₁ ← visit_all go (effective_link_deps ov m).0 (enter name w)
    w₂ ← visit_absorbed go (effective_link_deps ov m).1 w₁
    ok (leave name w₂))

  -- `visit`, with a unit of fuel for each call; `recursion_error` is its end, as Python's
  -- RecursionError is that of its stack.
  unfoldable pub visit : ℕ → Text → Walk → Result Walk
  visit zero name w = err recursion_error
  visit (suc f) name w =
      if contains name ov.global_policy.host_libs || marked w name
      then ok w
      else (do o ← caught (resolve name); visit_module (visit f) name o w)

  unfoldable pub dependency_closure : ℕ → List Text → Result (List Text)
  dependency_closure f roots = do
    w ← visit_all (visit f) roots (record { state = []; order = [] })
    ok w.order

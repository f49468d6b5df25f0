-- ===== src/Closure/Reach.antt =====
-- tools/bp2cmake/bp2cmake/closure.py: the modules that a closure is to hold, described without a walk.
use dalvikvm_multiplatform.Common.{
  [], ◌∷◌, ◌⊎◌, true, false, Option, none, some, List, Text, text_eq, contains, ◌≡◌, ◌≢◌, refl, ap,
  eval_error, Error, Result, ok, err, Ends, returned, raised, ◌∙◌,
}
use dalvikvm_multiplatform.Model.{Module}
use dalvikvm_multiplatform.Overlay.{Overlay}
use dalvikvm_multiplatform.Closure.{effective_link_deps, is_buildable, caught}

module _ (ov : Overlay) (resolve : Text → Result (Module Text)) where
  -- A module to emit: it is no host library, it resolves, and it is buildable.
  abbrev pub IsEmitted : Text → Type 0
  IsEmitted name =
      (contains name ov.global_policy.host_libs ≡ false)
      × ((m : Module Text) × (resolve name ≡ ok m) × (is_buildable ov m ≡ true))

  -- `Needs n d`: the module `n` links `d`, or absorbs a module that does and is no host library.
  pub data Needs : Text → Text → Type 0 where
    links :
        {n d : Text} (m : Module Text)
        → resolve n ≡ ok m
        → contains d (effective_link_deps ov m).0 ≡ true
        → Needs n d
    absorbs :
        {n d : Text} (m : Module Text) (a : Text) (am : Module Text)
        → resolve n ≡ ok m
        → contains a (effective_link_deps ov m).1 ≡ true
        → contains a ov.global_policy.host_libs ≡ false
        → resolve a ≡ ok am
        → contains d (effective_link_deps ov am).0 ≡ true
        → Needs n d

  -- What the roots need, directly or through modules to emit.
  pub data Reached (roots : List Text) : Text → Type 0 where
    root : {n : Text} → contains n roots ≡ true → IsEmitted n → Reached roots n
    need : {n d : Text} → Reached roots n → Needs n d → IsEmitted d → Reached roots d

  -- `Leads a n`: `a` is `n`, or needs it directly or through modules to emit.
  pub data Leads : Text → Text → Type 0 where
    here : {n : Text} → Leads n n
    onward : {a n d : Text} → Leads a n → Needs n d → IsEmitted d → Leads a d

  -- In the list, behind the names `before`, each module stands behind the modules to emit that it
  -- needs, but for those that lead back to it.
  abbrev pub DepsFirst : List Text → List Text → Type 0
  DepsFirst before [] = Unit
  DepsFirst before (n ∷ rest) =
      ((d : Text) → Needs n d → IsEmitted d → (contains d before ≡ true) ⊎ Leads d n)
      × DepsFirst (n ∷ before) rest

module _ (resolve : Text → Result (Module Text)) where
  -- What `caught` says of the resolution of `name`.
  abbrev pub IsCaught : Text → Option (Module Text) → Type 0
  IsCaught name none = (m : Module Text) → resolve name ≢ ok m
  IsCaught name (some m) = resolve name ≡ ok m

  -- An error that the resolution of some module raised, and that is no EvalError.
  abbrev pub IsResolveFailure : Error → Type 0
  IsResolveFailure x = (name : Text) × (resolve name ≡ err x) × (caught (resolve name) ≡ err x)

  pub caught-Ends : (name : Text) → Ends IsResolveFailure (IsCaught name) (caught (resolve name))
  unfolding caught
  caught-Ends name = at_result (resolve name) refl
    where
      at_result :
          (r : Result (Module Text))
          → resolve name ≡ r
          → Ends IsResolveFailure (IsCaught name) (caught r)
      at_result (ok m) e = returned e
      at_result (err (eval_error x)) e = returned (λ m h. cc)
      at_result (err x) e = raised (name, e, ap caught e ∙ refl)

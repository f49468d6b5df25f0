-- ===== src/Overlay/Edits.antt =====
-- tools/bp2cmake/bp2cmake/overlay.py: what the edits of a policy leave in a module.
use dalvikvm_multiplatform.Common.{
  not, ◌&&◌, ◌||◌, List, [], ◌∷◌, ◌++◌, if◌then◌else◌, ◌==◌, ◌≡◌, refl, ◌∙◌, ap, text_eq, contains,
  remove_all, contains-append, contains-remove_all, contains-dedupe, dedupe, dedupe-IsNodup,
  IsNodup, eq_self, Text, Bool-cases, inl, inr, arith,
}
use dalvikvm_multiplatform.Model.{Module}
use dalvikvm_multiplatform.Overlay.{
  ModulePolicy, GlobalPolicy, remove_each, extend_new, has_any_sub, without_subs, edit_ldflags,
  apply_module_policy,
}

contains-remove_each :
    (a : Text) (drop xs : List Text)
    → contains a (remove_each drop xs) ≡ (contains a xs && not (contains a drop))
unfolding remove_each contains
contains-remove_each a [] xs = ground arith
contains-remove_each a (d ∷ drop) xs =
    ground (arith, contains-remove_each a drop (remove_all d xs), contains-remove_all a d xs)

contains-add :
    (a b : Text) (xs : List Text)
    → contains a (if contains b xs then xs else xs ++ (b ∷ [])) ≡ (contains a xs || b == a)
unfolding contains
contains-add a b xs = elim (Bool-cases (b == a)) [
  | inl same ↦
      rw ((text_eq.beq_iff b a).0 same) (ground (arith, contains-append a xs (a ∷ []), eq_self a))
  | inr other ↦ ground (arith, contains-append a xs (b ∷ []))
]

pub contains-extend_new :
    (a : Text) (xs new : List Text)
    → contains a (extend_new xs new) ≡ (contains a xs || contains a new)
unfolding extend_new contains
contains-extend_new a xs [] = ground arith
contains-extend_new a xs (b ∷ new) = ground (
  arith,
  contains-extend_new a (if contains b xs then xs else xs ++ (b ∷ [])) new,
  contains-add a b xs,
)

contains-without_subs :
    (a : Text) (subs xs : List Text)
    → contains a (without_subs subs xs) ≡ (contains a xs && not (has_any_sub subs a))
unfolding without_subs contains
contains-without_subs a subs [] = refl
contains-without_subs a subs (x ∷ xs) = elim (Bool-cases (x == a)) [
  | inl same ↦
      rw ((text_eq.beq_iff x a).0 same) (ground (arith, contains-without_subs a subs xs, eq_self a))
  | inr other ↦ ground (arith, contains-without_subs a subs xs)
]

-- A name stands in a list that a policy edited if it was there and is not removed, or if it is added:
-- an addition wins over a removal. This is so of the sources, the shared and the static libraries.
pub apply_module_policy-adds :
    (m : Module Text) (pol : ModulePolicy) (glob : GlobalPolicy) (a : Text)
    → let m' = apply_module_policy m pol glob in
      (contains a m'.srcs
        ≡ (contains a m.srcs && not (contains a pol.remove_srcs) || contains a pol.add_srcs))
      × (contains a m'.shared_libs ≡ (
          contains a m.shared_libs && not (contains a pol.remove_shared_libs)
          || contains a pol.add_shared_libs))
      × (contains a m'.static_libs ≡ (
          contains a m.static_libs && not (contains a pol.remove_static_libs)
          || contains a pol.add_static_libs))
unfolding apply_module_policy
apply_module_policy-adds m pol glob a = (
  edited m.srcs pol.remove_srcs pol.add_srcs,
  edited m.shared_libs pol.remove_shared_libs pol.add_shared_libs,
  edited m.static_libs pol.remove_static_libs pol.add_static_libs,
)
  where
    edited :
        (xs drop new : List Text)
        → contains a (extend_new (remove_each drop xs) new)
          ≡ (contains a xs && not (contains a drop) || contains a new)
    edited xs drop new =
        contains-extend_new a (remove_each drop xs) new
        ∙ ap (λ b. b || contains a new) (contains-remove_each a drop xs)

-- The link flags after a policy: none stands twice, and a flag is there just if the module, the
-- policy of the module or the global policy gives it, the global policy does not drop it, and it
-- has none of the texts in it that the global policy drops flags by.
pub apply_module_policy-ldflags :
    (m : Module Text) (pol : ModulePolicy) (glob : GlobalPolicy)
    → let flags = (apply_module_policy m pol glob).ldflags in
      IsNodup flags
      × ((a : Text)
          → contains a flags ≡ (
              ((contains a m.ldflags || contains a pol.add_ldflags) || contains a glob.add_ldflags)
              && not (contains a glob.drop_ldflags)
              && not (has_any_sub glob.drop_ldflags_containing a)))
unfolding apply_module_policy edit_ldflags
apply_module_policy-ldflags m pol glob = (dedupe-IsNodup kept, member)
  where
    given : List Text
    given = (m.ldflags ++ pol.add_ldflags) ++ glob.add_ldflags

    kept : List Text
    kept = without_subs glob.drop_ldflags_containing (remove_each glob.drop_ldflags given)

    member :
        (a : Text)
        → contains a (dedupe kept) ≡ (
            ((contains a m.ldflags || contains a pol.add_ldflags) || contains a glob.add_ldflags)
            && not (contains a glob.drop_ldflags)
            && not (has_any_sub glob.drop_ldflags_containing a))
    member a = ground (
      arith,
      contains-dedupe a kept,
      contains-without_subs a glob.drop_ldflags_containing (remove_each glob.drop_ldflags given),
      contains-remove_each a glob.drop_ldflags given,
      contains-append a (m.ldflags ++ pol.add_ldflags) glob.add_ldflags,
      contains-append a m.ldflags pol.add_ldflags,
    )

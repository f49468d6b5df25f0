-- ===== src/Common/Members.antt =====
-- Membership tests on lists of a type with equality, and the list edits built on them.
use mathlib.Core.Path.{◌≡◌, refl}
use mathlib.Core.Logic.{inl, inr}
use mathlib.Core.Bool.{Bool, true, false, not, ◌&&◌, ◌||◌}
use mathlib.Core.List.{List, [], ◌∷◌, ◌++◌}
use native.Mathlib.Omega.{arith}
use dalvikvm_multiplatform.Common.Lists.{if◌then◌else◌, if_ind, Eq, ◌==◌, Bool-cases}

module _ {ℓ} {A : Type ℓ} ⦃e : Eq A⦄ where
  -- `a in xs`
  unfoldable pub contains : A → List A → Bool
  contains a [] = false
  contains a (x ∷ xs) = x == a || contains a xs

  -- `[x for x in xs if x not in drop]`
  unfoldable pub without : List A → List A → List A
  unfolding contains
  without drop [] = []
  without drop (x ∷ xs) = if contains x drop then without drop xs else x ∷ without drop xs

  -- `while a in xs: xs.remove(a)`
  unfoldable pub remove_all : A → List A → List A
  remove_all a [] = []
  remove_all a (x ∷ xs) = if x == a then remove_all a xs else x ∷ remove_all a xs

  -- The loop with a set `seen` and a list `out`: the first occurrence of each item stays.
  unfoldable pub dedupe_from : List A → List A → List A
  unfolding contains
  dedupe_from seen [] = []
  dedupe_from seen (x ∷ xs) =
      if contains x seen then dedupe_from seen xs else x ∷ dedupe_from (x ∷ seen) xs

  unfoldable pub dedupe : List A → List A
  unfolding dedupe_from
  dedupe xs = dedupe_from [] xs

  -- No item stands twice.
  unfoldable pub IsNodup : List A → Type 0
  IsNodup [] = Unit
  IsNodup (x ∷ xs) = (contains x xs ≡ false) × IsNodup xs

  pub eq_self : (a : A) → (a == a) ≡ true
  eq_self a = (e.beq_iff a a).1 refl

  pub contains-append :
      (a : A) (xs ys : List A) → contains a (xs ++ ys) ≡ (contains a xs || contains a ys)
  unfolding contains
  contains-append a [] ys = refl
  contains-append a (x ∷ xs) ys = ground (arith, contains-append a xs ys)

  pub contains-without :
      (a : A) (drop xs : List A)
      → contains a (without drop xs) ≡ (contains a xs && not (contains a drop))
  unfolding without
  contains-without a drop [] = refl
  contains-without a drop (x ∷ xs) = elim (Bool-cases (x == a)) [
    | inl same ↦
        rw ((e.beq_iff x a).0 same, eq_self a)
          (ground (arith, contains-without a drop xs, eq_self a))
    | inr other ↦ ground (arith, contains-without a drop xs)
  ]

  pub contains-remove_all :
      (a b : A) (xs : List A) → contains a (remove_all b xs) ≡ (contains a xs && not (b == a))
  unfolding contains remove_all
  contains-remove_all a b [] = refl
  contains-remove_all a b (x ∷ xs) = elim (Bool-cases (x == b)) [
    | inl same ↦ rw ((e.beq_iff x b).0 same, eq_self b) (ground (arith, contains-remove_all a b xs))
    | inr other ↦ elim (Bool-cases (x == a)) [
      | inl found ↦
          let gone = rw ((e.beq_iff x a).0 found) at other in
          ground (arith, contains-remove_all a b xs, e.beq_iff a b, e.beq_iff b a, e.beq_iff x a)
      | inr missed ↦ ground (arith, contains-remove_all a b xs)
    ]
  ]

  pub contains-dedupe_from :
      (a : A) (seen xs : List A)
      → contains a (dedupe_from seen xs) ≡ (contains a xs && not (contains a seen))
  unfolding dedupe_from
  contains-dedupe_from a seen [] = refl
  contains-dedupe_from a seen (x ∷ xs) = elim (Bool-cases (x == a)) [
    | inl same ↦
        rw ((e.beq_iff x a).0 same, eq_self a)
          (ground (arith, contains-dedupe_from a seen xs, eq_self a))
    | inr other ↦
        ground (arith, contains-dedupe_from a seen xs, contains-dedupe_from a (x ∷ seen) xs)
  ]

  pub dedupe_from-IsNodup : (seen xs : List A) → IsNodup (dedupe_from seen xs)
  unfolding dedupe_from IsNodup
  dedupe_from-IsNodup seen [] = tt
  dedupe_from-IsNodup seen (x ∷ xs) =
      if_ind IsNodup (contains x seen) (λ _. dedupe_from-IsNodup seen xs)
        λ _. (
          ground (arith, contains-dedupe_from x (x ∷ seen) xs, eq_self x),
          dedupe_from-IsNodup (x ∷ seen) xs,
        )

  pub contains-dedupe : (a : A) (xs : List A) → contains a (dedupe xs) ≡ contains a xs
  unfolding dedupe contains
  contains-dedupe a xs = ground (arith, contains-dedupe_from a [] xs)

  pub dedupe-IsNodup : (xs : List A) → IsNodup (dedupe xs)
  unfolding dedupe
  dedupe-IsNodup xs = dedupe_from-IsNodup [] xs

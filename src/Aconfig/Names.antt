-- ===== src/Aconfig/Names.antt =====
-- tools/bp2cmake/bp2cmake/aconfig.py: the names of a package in the generated code.
use dalvikvm_multiplatform.Common.{
  to_front, split_on, ℕ, ◌≡◌, ◌≢◌, refl, sym, ap, ◌∙◌, false, ◌==◌, nat_eq, List, [], ◌∷◌, ◌++◌,
  Text, codes, join, replace_char, has_char, All, Bool-cases, inl, inr, arith,
}
use dalvikvm_multiplatform.Aconfig.{AconfigPackage, namespace, c_prefix}

join-to_front :
    (c : ℕ) (sep : Text) (ps : List Text) → ps ≢ [] → join sep (to_front c ps) ≡ c ∷ join sep ps
unfolding join to_front
join-to_front c sep [] n = absurd (n refl)
join-to_front c sep (p ∷ []) n = refl
join-to_front c sep (p ∷ q ∷ ps) n = refl

join-empty : (sep : Text) (ps : List Text) → ps ≢ [] → join sep ([] ∷ ps) ≡ sep ++ join sep ps
unfolding join
join-empty sep [] n = absurd (n refl)
join-empty sep (p ∷ ps) n = refl

split_on-nonempty : (c : ℕ) (s : Text) → split_on c s ≢ []
unfolding split_on to_front
split_on-nonempty c [] = λ e. cc
split_on-nonempty c (d ∷ s) = elim (Bool-cases (d == c)) [
  | inl same ↦ rw same (λ e. cc)
  | inr other ↦ rw other (front_nonempty d (split_on c s))
]
  where
    front_nonempty : (d : ℕ) (ps : List Text) → to_front d ps ≢ []
    front_nonempty d [] e = cc
    front_nonempty d (p ∷ ps) e = cc

-- Joining the parts by any text replaces the separator by that text.
join-split_on : (c : ℕ) (new s : Text) → join new (split_on c s) ≡ replace_char c new s
unfolding split_on replace_char join
join-split_on c new [] = refl
join-split_on c new (d ∷ s) = elim (Bool-cases (d == c)) [
  | inl same ↦ rw same (
      join-empty new (split_on c s) (split_on-nonempty c s)
      ∙ ap (λ t. new ++ t) (join-split_on c new s))
  | inr other ↦ rw other (
      join-to_front d new (split_on c s) (split_on-nonempty c s)
      ∙ ap (λ t. d ∷ t) (join-split_on c new s))
]

replace_char-same : (c : ℕ) (s : Text) → replace_char c (c ∷ []) s ≡ s
unfolding replace_char
replace_char-same c [] = refl
replace_char-same c (d ∷ s) = elim (Bool-cases (d == c)) [
  | inl same ↦ rw same (
      ap (λ t. c ∷ t) (replace_char-same c s) ∙ ap (λ x. x ∷ s) (sym ((nat_eq.beq_iff d c).0 same)))
  | inr other ↦ rw other (ap (λ t. d ∷ t) (replace_char-same c s))
]

to_front-All :
    (c d : ℕ) (ps : List Text)
    → (d == c) ≡ false
    → All (λ p. has_char c p ≡ false) ps
    → All (λ p. has_char c p ≡ false) (to_front d ps)
unfolding to_front has_char
to_front-All c d [] e h = (ground arith, tt)
to_front-All c d (p ∷ ps) e h = (ground (arith, h.0), h.1)

split_on-All : (c : ℕ) (s : Text) → All (λ p. has_char c p ≡ false) (split_on c s)
unfolding split_on has_char
split_on-All c [] = (refl, tt)
split_on-All c (d ∷ s) = elim (Bool-cases (d == c)) [
  | inl same ↦ rw same (refl, split_on-All c s)
  | inr other ↦ rw other (to_front-All c d (split_on c s) other (split_on-All c s))
]

-- A package has one list of parts, without dots: the Java package is the parts joined by a dot, the
-- C++ namespace the parts joined by two colons, and the prefix of the C names the parts joined by an
-- underscore.
pub c_prefix-namespace :
    (pkg : AconfigPackage)
    → (parts : List Text) × All (λ p. has_char b'.' p ≡ false) parts
      × (pkg.package_name ≡ join (codes ".") parts)
      × (namespace pkg ≡ join (codes "::") parts)
      × (c_prefix pkg ≡ join (codes "_") parts)
unfolding namespace c_prefix
c_prefix-namespace pkg = (
  split_on b'.' pkg.package_name,
  split_on-All b'.' pkg.package_name,
  sym (join-split_on b'.' (codes ".") pkg.package_name ∙ replace_char-same b'.' pkg.package_name),
  refl,
  sym (join-split_on b'.' (codes "_") pkg.package_name),
)

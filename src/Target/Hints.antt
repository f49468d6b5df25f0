-- ===== src/Target/Hints.antt =====
-- tools/bp2cmake/bp2cmake/target.py: the table of non-canonical identifiers against the registry.
use dalvikvm_multiplatform.Common.{
  text_leb, insert_text, sort_texts, ◌≡◌, refl, not, Bool, true, false, ◌&&◌, some, List, [], ◌∷◌,
  ◌==◌, text_eq, text_beq, text_beq_iff, contains, Text, Assoc, find, arith, and-left, and-right,
  All, Bool-cases, inl, inr,
}
use dalvikvm_multiplatform.Target.{
  TargetProfile, non_canonical, Outcome, done, raises, ◌>>=◌, resolve_in, resolve_target,
  target_profiles, find_identity, build_profiles, profile,
}
use dalvikvm_multiplatform.Target.Registry.{target_profiles_built}
use dalvikvm_multiplatform.Target.Tables.{non_canonical_hints}

is_done : {A : Type 0} → Outcome A → Bool
is_done (done a) = true
is_done (raises e) = false

all_resolve : List Text → Bool
all_resolve [] = true
all_resolve (t ∷ ts) = is_done (resolve_target t) && all_resolve ts

all_hints : Assoc (List Text) → Bool
all_hints [] = true
all_hints ((key, hints) ∷ rest) =
    (not (is_done (resolve_target key)) && all_resolve hints) && all_hints rest

evaluation : Unit {0}
unfolding is_done all_resolve all_hints resolve_target resolve_in target_profiles build_profiles
    profile find_identity sort_texts insert_text text_leb text_beq contains find
evaluation = tt

hints_checked : all_hints non_canonical_hints ≡ true
unfolding evaluation
hints_checked = refl

abbrev pub Resolves : Text → Type 0
Resolves t = (p : TargetProfile) × (resolve_target t ≡ done p)

is_done-eq : {A : Type 0} (o : Outcome A) → is_done o ≡ true → (a : A) × (o ≡ done a)
unfolding is_done
is_done-eq (done a) h = (a, refl)
is_done-eq (raises e) h = cc

all_resolve-All : (ts : List Text) → all_resolve ts ≡ true → All Resolves ts
unfolding all_resolve
all_resolve-All [] h = tt
all_resolve-All (t ∷ ts) h =
    (is_done-eq (resolve_target t) (and-left _ _ h), all_resolve-All ts (and-right _ _ h))

find-hints :
    (table : Assoc (List Text)) (t : Text) (hints : List Text)
    → all_hints table ≡ true
    → find t table ≡ some hints
    → (is_done (resolve_target t) ≡ false) × (all_resolve hints ≡ true)
unfolding find all_hints
find-hints [] t hints c h = cc
find-hints ((key, hs) ∷ table) t hints c h = elim (Bool-cases (key == t)) [
  | inl same ↦
      let e = (text_beq_iff key t).0 same in
      let found : hs ≡ hints = ground arith in rw (← found, ← e) (ground arith)
  | inr other ↦ find-hints table t hints (and-right _ _ c) (rw other at h)
]

-- A text with hints that does not resolve is refused with them.
refused_with :
    (t : Text) (hints : List Text) (o : Outcome (Assoc TargetProfile))
    → (table : Assoc TargetProfile) × (o ≡ done table)
    → find t non_canonical_hints ≡ some hints
    → is_done (o >>= λ table. resolve_in table t) ≡ false
    → (o >>= λ table. resolve_in table t) ≡ raises (non_canonical hints)
unfolding is_done resolve_in
refused_with t hints (raises e) c h r = cc
refused_with t hints (done table) c h r = ground arith

-- A text with a hint is no registered identifier: it is refused with its hints, and each of the
-- hints is an identifier that resolves.
pub resolve_target-hints :
    (t : Text) (hints : List Text)
    → find t non_canonical_hints ≡ some hints
    → (resolve_target t ≡ raises (non_canonical hints)) × All Resolves hints
unfolding resolve_target
resolve_target-hints t hints h =
    let (refused, good) = find-hints non_canonical_hints t hints hints_checked h in
    (
      refused_with t hints target_profiles target_profiles_built h refused,
      all_resolve-All hints good,
    )

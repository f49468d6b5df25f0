-- ===== src/Target/Registry.antt =====
-- tools/bp2cmake/bp2cmake/target.py: what holds of every profile that `resolve_target` returns.
use dalvikvm_multiplatform.Common.{
  text_leb, insert_text, sort_texts, ◌≡◌, ◌≢◌, ◌⊎◌, inl, inr, refl, sym, ◌∙◌, not, Bool, true,
  false, ◌&&◌, some, List, [], ◌∷◌, if◌then◌else◌, ◌==◌, text_eq, text_beq, text_beq_iff, nat_eq,
  contains, Text, codes, Assoc, find, arith, subst, and-left, and-right, All, Bool-cases,
}
use dalvikvm_multiplatform.Target.{
  TargetProfile, unavailable, Outcome, done, raises, ◌>>=◌, find_identity, dashed, profile,
  build_profiles, target_profiles, resolve_in, resolve_target, is_buildable, require_generation,
  unavailable_detail,
}
use dalvikvm_multiplatform.Target.Tables.{
  ProfileSpec, target_platforms, target_arches, target_abis, llvm_file_identities, profile_specs,
}

-- What `_profile` checks of a profile.
pub record IsRegistered (p : TargetProfile) : Type 0 where
  pub platform : contains p.target_platform target_platforms ≡ true
  pub architecture : contains p.target_arch target_arches ≡ true
  pub abi : contains p.target_abi target_abis ≡ true
  pub spelled : p.target_id ≡ dashed p.target_platform p.target_arch p.target_abi
  pub identity :
      find_identity p.target_platform p.target_arch llvm_file_identities
      ≡ some (p.llvm_file_format, p.llvm_arch)

pub profile-IsRegistered :
    (s : ProfileSpec) (p : TargetProfile) → profile s ≡ done p → IsRegistered p
unfolding profile
profile-IsRegistered s p h =
    ground (arith, text_beq_iff s.target_id (dashed s.target_platform s.target_arch s.target_abi))

-- The identifiers that may be built.
abbrev pub buildable_ids : List Text
buildable_ids =
    codes "linux-x86_64-gnu" ∷ codes "linux-aarch64-gnu" ∷ codes "windows-x86_64-msvc" ∷ []

abbrev narrow_arches : List Text
narrow_arches = codes "x86" ∷ codes "armv7" ∷ codes "wasm32" ∷ []

bool_beq : Bool → Bool → Bool
bool_beq true b = b
bool_beq false b = not b

bool_beq→eq : (a b : Bool) → bool_beq a b ≡ true → a ≡ b
unfolding bool_beq
bool_beq→eq a b h = ground arith

-- The checks that an entry of the registry is put to, by evaluation.
entry_check : Text → TargetProfile → Bool
entry_check key p =
    p.target_id == key
    && (bool_beq (is_buildable p) (contains key buildable_ids)
        && (bool_beq (is_buildable p) (contains (codes "native") p.capabilities)
            && (bool_beq (is_buildable p) (p.unavailable_reason == [])
                && p.pointer_bits == (if contains p.target_arch narrow_arches then 32 else 64))))

all_entries : Assoc TargetProfile → Bool
all_entries [] = true
all_entries ((key, p) ∷ rest) = entry_check key p && all_entries rest

registry_check : Outcome (Assoc TargetProfile) → Bool
registry_check (raises e) = false
registry_check (done table) = all_entries table

evaluation : Unit {0}
unfolding registry_check all_entries entry_check bool_beq target_profiles build_profiles profile
    find_identity sort_texts insert_text text_leb is_buildable text_beq contains find
evaluation = tt

registry_checked : registry_check target_profiles ≡ true
unfolding evaluation
registry_checked = refl

built :
    (o : Outcome (Assoc TargetProfile))
    → registry_check o ≡ true
    → (table : Assoc TargetProfile) × (o ≡ done table)
unfolding registry_check
built (raises e) h = cc
built (done table) h = (table, refl)

-- No call of `_profile` fails, so the table is there.
pub target_profiles_built : (table : Assoc TargetProfile) × (target_profiles ≡ done table)
target_profiles_built = built target_profiles registry_checked

-- What holds of the profile that an identifier resolves to.
pub record Canonical (target_id : Text) (p : TargetProfile) : Type 0 where
  pub registered : IsRegistered p
  pub own_id : p.target_id ≡ target_id
  pub buildable : is_buildable p ≡ contains target_id buildable_ids
  pub native : is_buildable p ≡ contains (codes "native") p.capabilities
  pub reasoned : is_buildable p ≡ (p.unavailable_reason == [])
  pub width : p.pointer_bits ≡ (if contains p.target_arch narrow_arches then 32 else 64)

entry-Canonical :
    (t : Text) (p : TargetProfile) → IsRegistered p → entry_check t p ≡ true → Canonical t p
unfolding entry_check
entry-Canonical t p r h =
    let h₁ = and-right _ _ h in
    let h₂ = and-right _ _ h₁ in
    let h₃ = and-right _ _ h₂ in
    record {
      registered = r;
      own_id = (text_beq_iff p.target_id t).0 (and-left _ _ h);
      buildable = bool_beq→eq _ _ (and-left _ _ h₁);
      native = bool_beq→eq _ _ (and-left _ _ h₂);
      reasoned = bool_beq→eq _ _ (and-left _ _ h₃);
      width = (nat_eq.beq_iff _ _).0 (and-right _ _ h₃);
    }

bind-eq-done :
    {A B : Type 0} (m : Outcome A) (f : A → Outcome B) {b : B}
    → (m >>= f) ≡ done b
    → (a : A) × (m ≡ done a) × (f a ≡ done b)
bind-eq-done (done a) f h = (a, refl, h)
bind-eq-done (raises e) f h = cc

build_profiles-IsRegistered :
    (specs : Assoc ProfileSpec) (table : Assoc TargetProfile)
    → build_profiles specs ≡ done table
    → All (λ kp. IsRegistered kp.1) table
unfolding build_profiles
build_profiles-IsRegistered [] [] h = tt
build_profiles-IsRegistered [] (e ∷ table) h = cc
build_profiles-IsRegistered ((key, s) ∷ specs) table h =
    let (p, made, h₁) = bind-eq-done (profile s) _ h in
    let (rest, built, h₂) = bind-eq-done (build_profiles specs) _ h₁ in
    let whole : (key, p) ∷ rest ≡ table = cc in
    subst (All (λ kp. IsRegistered kp.1)) whole
      (profile-IsRegistered s p made, build_profiles-IsRegistered specs rest built)

find-Canonical :
    (table : Assoc TargetProfile) (t : Text) (p : TargetProfile)
    → All (λ kp. IsRegistered kp.1) table
    → all_entries table ≡ true
    → find t table ≡ some p
    → Canonical t p
unfolding find all_entries
find-Canonical [] t p r c h = cc
find-Canonical ((key, q) ∷ table) t p r c h = elim (Bool-cases (key == t)) [
  | inl same ↦
      let e = (text_beq_iff key t).0 same in
      let found : q ≡ p = ground arith in
      rw (← found, ← e) (entry-Canonical key q r.0 (and-left _ _ c))
  | inr other ↦ find-Canonical table t p r.1 (and-right _ _ c) (rw other at h)
]

resolve_in-find :
    (table : Assoc TargetProfile) (t : Text) (p : TargetProfile)
    → resolve_in table t ≡ done p
    → find t table ≡ some p
unfolding resolve_in
resolve_in-find table t p h = ground arith

-- An identifier that resolves is the identifier of its profile, spelled platform-arch-abi from
-- registered parts; the profile is buildable exactly for the three identifiers named, exactly if it
-- has the native capability, and exactly if it gives no reason against; its pointers have 32 bits on
-- the three narrow architectures and 64 on the others.
pub resolve_target-Canonical :
    (t : Text) (p : TargetProfile) → resolve_target t ≡ done p → Canonical t p
unfolding resolve_target registry_check
resolve_target-Canonical t p h = from_table target_profiles refl registry_checked h
  where
    from_table :
        (o : Outcome (Assoc TargetProfile))
        → target_profiles ≡ o
        → registry_check o ≡ true
        → (o >>= λ table. resolve_in table t) ≡ done p
        → Canonical t p
    from_table (raises e) q c h = cc
    from_table (done table) q c h =
        find-Canonical table t p
          (build_profiles-IsRegistered profile_specs table (unfold target_profiles in q)) c
          (resolve_in-find table t p h)

unavailable_detail_lem : (r : Text) → r ≢ [] → unavailable_detail r ≡ r
unfolding unavailable_detail
unavailable_detail_lem [] h = absurd (h refl)
unavailable_detail_lem (c ∷ s) h = refl

-- Of an identifier that resolves, generation is allowed if it is one of the three buildable ones;
-- else it is refused with the status and the reason of the profile, which is not empty.
pub require_generation_lem :
    (t : Text) (p : TargetProfile)
    → resolve_target t ≡ done p
    → (contains t buildable_ids ≡ true) × (require_generation p ≡ done tt)
      ⊎ (contains t buildable_ids ≡ false)
        × (require_generation p ≡ raises (unavailable p.support_status p.unavailable_reason))
        × (p.unavailable_reason ≢ [])
unfolding require_generation
require_generation_lem t p h =
    let canon = resolve_target-Canonical t p h in
    elim (Bool-cases (is_buildable p)) [
      | inl allowed ↦ inl (sym canon.buildable ∙ allowed, rw allowed)
      | inr refused ↦
          let given : p.unavailable_reason ≢ [] =
            λ e. ground (arith, text_beq_iff p.unavailable_reason [], canon.reasoned) in
          inr (
            sym canon.buildable ∙ refused,
            rw (refused, unavailable_detail_lem p.unavailable_reason given),
            given,
          )
    ]

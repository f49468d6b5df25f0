-- ===== src/PortPolicy/Kinds.antt =====
-- overlay/art_port_policy.py: which targets have a policy, and what every policy has.
use dalvikvm_multiplatform.Common.{
  Bool, true, false, not, ◌&&◌, none, some, List, [], ◌∷◌, ◌++◌, keys, ◌==◌, text_eq, text_beq,
  contains, dedupe, dedupe_from, IsNodup, All, and-left, and-right, Text, codes, Assoc, find,
  Bool-cases, inl, inr, ◌⊎◌, value_error, ok, Ends, returned, raised, ◌≡◌, ◌≢◌, refl, arith,
}
use dalvikvm_multiplatform.Target.{TargetProfile}
use dalvikvm_multiplatform.Overlay.{
  ModulePolicy, default_policy, GlobalPolicy, Overlay, checked, any_empty, policy_for,
}
use dalvikvm_multiplatform.PortPolicy.Fields.{Field, set_field}
use dalvikvm_multiplatform.PortPolicy.Shared.{common_modules}
use dalvikvm_multiplatform.PortPolicy.Linux.{linux_module_delta}
use dalvikvm_multiplatform.PortPolicy.Windows.Runtime.{windows_runtime_delta}
use dalvikvm_multiplatform.PortPolicy.Windows.Libraries.{windows_library_delta}
use dalvikvm_multiplatform.PortPolicy.Windows.{windows_module_delta}
use dalvikvm_multiplatform.PortPolicy.{
  set_fields, fields_of, product_blueprint_scan, product_root_modules, linux_global_policy,
  windows_global_policy, global_policy_of, new_names, policy_of, with_mterp, module_policies,
  delta_of, make_overlay,
}

-- The kind of a policy is one of some kinds; `default` is the answer where it has none.
abbrev has_kind : Bool → List Text → ModulePolicy → Bool
has_kind default ks p = elim p.kind [ none ↦ default | some k ↦ contains k ks ]

-- The policy leaves the kind open, or gives one that the emitter knows.
abbrev pub is_known_kind : ModulePolicy → Bool
is_known_kind p = has_kind true (codes "executable" ∷ codes "shared" ∷ codes "static" ∷ []) p

-- The policy makes a program or a shared library.
abbrev pub is_linked : ModulePolicy → Bool
is_linked p = has_kind false (codes "executable" ∷ codes "shared" ∷ []) p

all : {A : Type 0} → (A → Bool) → List A → Bool
all test [] = true
all test (x ∷ xs) = test x && all test xs

all-All :
    {A : Type 0} (test : A → Bool) (xs : List A) → all test xs ≡ true → All (λ x. test x ≡ true) xs
unfolding all
all-All test [] h = tt
all-All test (x ∷ xs) h = (and-left _ _ h, all-All test xs (and-right _ _ h))

distinct : List Text → Bool
distinct [] = true
distinct (x ∷ xs) = not (contains x xs) && distinct xs

distinct-IsNodup : (xs : List Text) → distinct xs ≡ true → IsNodup xs
unfolding distinct IsNodup
distinct-IsNodup [] h = tt
distinct-IsNodup (x ∷ xs) h = (ground (arith, h), distinct-IsNodup xs (and-right _ _ h))

-- What an overlay of the port has.
abbrev pub IsProduct : TargetProfile → Overlay → Type 0
IsProduct profile ov =
    IsNodup (keys ov.modules)
    × All (λ (np : Text × ModulePolicy). is_known_kind np.1 ≡ true) ov.modules
    × All (λ root. is_linked (policy_for ov root) ≡ true) ov.product_root_modules
    × ((policy_for ov (codes "libart")).add_gensrc_sources
        ≡ (codes "art/asm/mterp/" ++ profile.mterp_output) ∷ [])

abbrev overlay_of : TargetProfile → GlobalPolicy → Assoc (List Field) → Overlay
overlay_of profile glob delta = record {
  global_policy = glob;
  modules = module_policies profile delta;
  blueprint_scan = product_blueprint_scan;
  product_root_modules = product_root_modules;
}

overlay_of-checked :
    (profile : TargetProfile) (glob : GlobalPolicy) (delta : Assoc (List Field))
    → checked (overlay_of profile glob delta) ≡ ok (overlay_of profile glob delta)
unfolding checked any_empty dedupe dedupe_from contains text_beq
overlay_of-checked profile glob delta = refl

linux-IsProduct :
    (profile : TargetProfile)
    → IsProduct profile (overlay_of profile linux_global_policy linux_module_delta)
unfolding module_policies keys common_modules linux_module_delta new_names policy_of set_fields
    set_field fields_of with_mterp find policy_for default_policy contains text_beq distinct all
linux-IsProduct profile =
    let ov = overlay_of profile linux_global_policy linux_module_delta in
    (
      distinct-IsNodup (keys ov.modules) refl,
      all-All (λ (np : Text × ModulePolicy). is_known_kind np.1) ov.modules refl,
      all-All (λ root. is_linked (policy_for ov root)) ov.product_root_modules refl,
      refl,
    )

windows-IsProduct :
    (profile : TargetProfile)
    → IsProduct profile
        (overlay_of profile (windows_global_policy profile.target_arch) windows_module_delta)
unfolding module_policies keys common_modules windows_module_delta windows_runtime_delta
    windows_library_delta new_names policy_of set_fields set_field fields_of with_mterp find
    policy_for default_policy contains text_beq distinct all
windows-IsProduct profile =
    let ov = overlay_of profile (windows_global_policy profile.target_arch) windows_module_delta in
    (
      distinct-IsNodup (keys ov.modules) refl,
      all-All (λ (np : Text × ModulePolicy). is_known_kind np.1) ov.modules refl,
      all-All (λ root. is_linked (policy_for ov root)) ov.product_root_modules refl,
      refl,
    )

-- `make_overlay` returns an overlay for a Linux target and for windows-x86_64-msvc, if that is of the
-- platform windows, and raises ValueError for every other target. In an overlay no module has two
-- policies, each policy leaves the kind open or has one of the three kinds, every product root is a
-- program or a shared library, and libart compiles the interpreter of the target.
pub make_overlay-IsProduct :
    (profile : TargetProfile)
    → Ends
        (λ x.
          (x ≡ value_error)
          × (profile.target_platform ≢ codes "linux")
          × ((profile.target_id ≢ codes "windows-x86_64-msvc")
              ⊎ (profile.target_platform ≢ codes "windows")))
        (IsProduct profile)
        (make_overlay profile)
unfolding make_overlay delta_of global_policy_of
make_overlay-IsProduct profile = elim (Bool-cases (profile.target_platform == codes "linux")) [
  | inl linux ↦
      rw (linux, overlay_of-checked profile linux_global_policy linux_module_delta)
        (returned (linux-IsProduct profile))
  | inr no_linux ↦ elim (Bool-cases (profile.target_id == codes "windows-x86_64-msvc")) [
    | inr other ↦ rw (no_linux, other) (raised (refl, differs no_linux, inl (differs other)))
    | inl own ↦ elim (Bool-cases (profile.target_platform == codes "windows")) [
      | inl windows ↦
          rw
            (
              no_linux,
              own,
              windows,
              overlay_of-checked profile (windows_global_policy profile.target_arch)
                  windows_module_delta,
            )
            (returned (windows-IsProduct profile))
      | inr other ↦ rw (no_linux, own, other) (raised (refl, differs no_linux, inr (differs other)))
    ]
  ]
]
  where
    differs : {a b : Text} → (a == b) ≡ false → a ≢ b
    differs {a} {b} h e = let t = (text_eq.beq_iff a b).1 e in cc

-- ===== src/LocalConfig/Precedence.antt =====
-- tools/bp2cmake/bp2cmake/local_config.py: the bindings of the CI configuration win over the local ones.
use dalvikvm_multiplatform.Common.{
  keys, find-absent, Bool, ◌∙◌, ap, contains, IsNodup, false, find-store, if◌then◌else◌, true,
  false, Option, none, some, [], ◌∷◌, ◌==◌, text_eq, Bool-cases, inl, inr, All, Text, Assoc, find,
  store, ◌≡◌, refl, sym, subst,
}
use dalvikvm_multiplatform.LocalConfig.{
  bindings_at, or_empty, target_bindings, HostPath, LocalBuildConfig, update, merge_bindings,
  merge_targets, or_else, merge_configs,
}

find-update :
    {A : Type 0} (key : Text) (d e : Assoc A)
    → IsNodup (keys e)
    → find key (update d e) ≡ or_else (find key e) (find key d)
unfolding find update keys IsNodup or_else
find-update key d [] h = refl
find-update key d ((k, v) ∷ e) h = elim (Bool-cases (k == key)) [
  | inl same ↦
      let absent =
        find-absent key e
          (subst (λ z. contains z (keys e) ≡ false) ((text_eq.beq_iff k key).0 same) h.0) in
      rw same (
        find-update key (store k v d) e h.1
        ∙ ap (λ o. or_else o (find key (store k v d))) absent
        ∙ find-store k key v d
        ∙ rw same refl)
  | inr other ↦ rw other (
      find-update key (store k v d) e h.1
      ∙ ap (or_else (find key e)) (find-store k key v d ∙ rw other refl))
]

-- The keys of a dict of bindings are those of a dict, for each target.
abbrev pub AreDicts : Assoc (Assoc HostPath) → Type 0
AreDicts targets = IsNodup (keys targets) × All (λ tb. IsNodup (keys tb.1)) targets

find-merge_bindings :
    (key : Text) (o : Option (Assoc HostPath)) (b : Assoc HostPath)
    → IsNodup (keys b)
    → find key (merge_bindings o b) ≡ or_else (find key b) (find key (or_empty o))
unfolding merge_bindings or_empty
find-merge_bindings key none b h = find-update key [] b h
find-merge_bindings key (some old) b h = find-update key old b h

or_empty-if :
    (c : Bool) (b : Assoc HostPath) (o : Option (Assoc HostPath))
    → or_empty (if c then some b else o) ≡ (if c then b else or_empty o)
unfolding or_empty
or_empty-if true b o = refl
or_empty-if false b o = refl

bindings_at-store :
    (t target_id : Text) (b : Assoc HostPath) (targets : Assoc (Assoc HostPath))
    → bindings_at (store target_id b targets) t
      ≡ (if target_id == t then b else bindings_at targets t)
unfolding bindings_at
bindings_at-store t target_id b targets =
    ap or_empty (find-store target_id t b targets) ∙ or_empty-if (target_id == t) b (find t targets)

bindings_at-cons :
    (t target_id : Text) (b : Assoc HostPath) (new : Assoc (Assoc HostPath))
    → bindings_at ((target_id, b) ∷ new) t ≡ (if target_id == t then b else bindings_at new t)
unfolding bindings_at find
bindings_at-cons t target_id b new = or_empty-if (target_id == t) b (find t new)

bindings_at-absent :
    (t : Text) (new : Assoc (Assoc HostPath))
    → contains t (keys new) ≡ false
    → bindings_at new t ≡ []
unfolding bindings_at or_empty
bindings_at-absent t new h = ap or_empty (find-absent t new h)

abbrev first_of : Text → Assoc HostPath → Assoc HostPath → Option HostPath
first_of key d e = or_else (find key d) (find key e)

find-merge_targets :
    (key t : Text) (targets new : Assoc (Assoc HostPath))
    → AreDicts new
    → find key (bindings_at (merge_targets targets new) t)
      ≡ or_else (find key (bindings_at new t)) (find key (bindings_at targets t))
unfolding merge_targets IsNodup keys or_else bindings_at find or_empty
find-merge_targets key t targets [] h = refl
find-merge_targets key t targets ((target_id, b) ∷ new) h =
    let merged = merge_bindings (find target_id targets) b in
    let targets' = store target_id merged targets in
    let stored = bindings_at-store t target_id merged targets in
    let front = bindings_at-cons t target_id b new in
    find-merge_targets key t targets' new (h.0.1, h.1.1) ∙ elim (Bool-cases (target_id == t)) [
      | inl same ↦
          let equal = (text_eq.beq_iff target_id t).0 same in
          let gone =
            bindings_at-absent t new (subst (λ z. contains z (keys new) ≡ false) equal h.0.0) in
          ap (λ d. first_of key d (bindings_at targets' t)) gone
          ∙ ap (find key) (stored ∙ rw same refl)
          ∙ find-merge_bindings key (find target_id targets) b h.1.0
          ∙ ap (λ z. first_of key b (bindings_at targets z)) equal
          ∙ ap (λ d. first_of key d (bindings_at targets t)) (sym (front ∙ rw same refl))
      | inr other ↦
          ap (λ d. first_of key (bindings_at new t) d) (stored ∙ rw other refl)
          ∙ ap (λ d. first_of key d (bindings_at targets t)) (sym (front ∙ rw other refl))
    ]

-- Let the keys of the CI configuration be those of dicts. A tool, a runner and a binding of a target
-- are those of the CI configuration where that has them, and else those of the local one; so is the
-- output root.
pub merge_configs-find :
    (local ci : LocalBuildConfig)
    → IsNodup (keys ci.tools)
    → IsNodup (keys ci.target_runners)
    → AreDicts ci.targets
    → let config = merge_configs local ci in
      ((key : Text) → find key config.tools ≡ or_else (find key ci.tools) (find key local.tools))
      × ((key : Text)
          → find key config.target_runners
            ≡ or_else (find key ci.target_runners) (find key local.target_runners))
      × ((target_id key : Text)
          → find key (target_bindings config target_id)
            ≡ or_else
                (find key (target_bindings ci target_id))
                (find key (target_bindings local target_id)))
      × (config.output_root ≡ or_else ci.output_root local.output_root)
unfolding merge_configs target_bindings
merge_configs-find local ci tools runners targets = (
  λ key. find-update key local.tools ci.tools tools,
  λ key. find-update key local.target_runners ci.target_runners runners,
  λ target_id key. find-merge_targets key target_id local.targets ci.targets targets,
  refl,
)

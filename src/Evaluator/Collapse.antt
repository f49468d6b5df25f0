-- ===== src/Evaluator/Collapse.antt =====
-- tools/bp2cmake/bp2cmake/evaluator.py: `_collapse_selects` returns for every property map, and no
-- select is left in what it returns.
use dalvikvm_multiplatform.Common.{
  ℕ, zero, suc, ◌≤◌, ◌<◌, ◌≡◌, refl, max, true, false, Option, none, some, List, [], ◌∷◌, ◌==◌,
  text_eq, text_beq_iff, Text, codes, contains, Result, ok, err, ◌>>=◌, Ends, returned, Ends-bind,
  Ends-ok, Ends-err, All, if_ind, Bool-cases, Option-cases, inl, inr, arith,
}
use dalvikvm_multiplatform.Values.{
  Value, Dict, dict, empty, bind, get, set, merge_value, deep_merge, depth, dict_depth,
}
use dalvikvm_multiplatform.Values.Keys.{get-set}
use dalvikvm_multiplatform.Config.{Config, soong_config_value}
use dalvikvm_multiplatform.Evaluator.Selects.{
  select_keys, plain_items, branches_at, config_branches, active_branches, merge_branches,
  merge_selects, collapse, collapse_selects,
}

-- No key of the dict is a select.
abbrev pub NoSelects : Dict → Type 0
NoSelects d = (k : Text) → contains k select_keys ≡ true → get k d ≡ none

get-bind-none :
    (k j : Text) (v : Value) (d : Dict)
    → get k (bind j v d) ≡ none
    → (j == k) ≡ false × (get k d ≡ none)
unfolding get
get-bind-none k j v d h = ground arith

-- A key that neither dict has is not in their merge.
pub deep_merge-none :
    (k : Text) (a b : Dict) → get k a ≡ none → get k b ≡ none → get k (deep_merge a b) ≡ none
unfolding deep_merge
deep_merge-none k a empty h e = h
deep_merge-none k a (bind j vb b) h e =
    let (other, rest) = get-bind-none k j vb b e in
    deep_merge-none k (set j (merge_value (get j a) vb) a) b (rw (get-set, other) h) rest

plain_items-NoSelects : (d : Dict) → NoSelects (plain_items d)
unfolding plain_items get
plain_items-NoSelects empty k s = refl
plain_items-NoSelects (bind j v d) k s =
    if_ind (λ x. get k x ≡ none) (contains j select_keys) (λ _. plain_items-NoSelects d k s)
      λ out. elim (Bool-cases (j == k)) [
        | inl same ↦
            let e = (text_beq_iff j k).0 same in
            let clash : contains j select_keys ≡ true = rw e s in cc
        | inr other ↦ rw other (plain_items-NoSelects d k s)
      ]

-- Each dict among the branches is less deep than `bound`.
abbrev IsBelow : ℕ → Value → Type 0
IsBelow bound v = depth v ≤ bound

get-depth : (k : Text) (d : Dict) (v : Value) → get k d ≡ some v → depth v ≤ dict_depth d
unfolding get depth
get-depth k empty v h = cc
get-depth k (bind j w d) v h = elim (Bool-cases (j == k)) [
  | inl same ↦ let e : w ≡ v = ground arith in rw (← e) (omega arith)
  | inr other ↦ omega (arith, get-depth k d v (rw other at h))
]

branches_at-IsBelow :
    (ks : List Text) (block : Dict) → All (IsBelow (dict_depth block)) (branches_at ks block)
unfolding branches_at
branches_at-IsBelow [] block = tt
branches_at-IsBelow (k ∷ ks) block = elim (Option-cases (get k block)) [
  | inl e ↦ rw (e, branches_at) (branches_at-IsBelow ks block)
  | inr (v, e) ↦ rw (e, branches_at) (get-depth k block v e, branches_at-IsBelow ks block)
]

All-weaken : (m n : ℕ) (vs : List Value) → m ≤ n → All (IsBelow m) vs → All (IsBelow n) vs
All-weaken m n [] le h = tt
All-weaken m n (v ∷ vs) le h = (omega arith, All-weaken m n vs le h.1)

config_branches-IsBelow : (block : Dict) → All (IsBelow (dict_depth block)) (config_branches block)
unfolding config_branches depth
config_branches-IsBelow empty = tt
config_branches-IsBelow (bind var (dict b) d) =
    let rest =
      All-weaken (dict_depth d) (max (suc (dict_depth b)) (dict_depth d)) (config_branches d)
        (omega arith) (config_branches-IsBelow d) in
    if_ind (All (IsBelow (max (suc (dict_depth b)) (dict_depth d)))) (soong_config_value var)
      (λ _. (omega arith, rest)) (λ _. rest)
config_branches-IsBelow (bind var _ d) =
    All-weaken (dict_depth d) _ (config_branches d) (omega arith) (config_branches-IsBelow d)

module _ (config : Config) where
  -- A branch that is active, of a block of the property map, is less deep than the map.
  active_branches-IsBelow :
      (key : Text) (block : Dict)
      → All (IsBelow (suc (dict_depth block))) (active_branches config key block)
  unfolding active_branches depth
  active_branches-IsBelow key block =
      let at = λ (ks : List Text).
        All-weaken (dict_depth block) (suc (dict_depth block)) (branches_at ks block) (omega arith)
          (branches_at-IsBelow ks block) in
      let P = All (IsBelow (suc (dict_depth block))) in
      if_ind P (key == codes "target") (λ _. at _)
        λ _.
          if_ind P (key == codes "arch") (λ _. at _)
            λ _.
              if_ind P (key == codes "multilib") (λ _. at _)
                λ _.
                  if_ind P (key == codes "avx2")
                    (λ _. if_ind P config.avx2 (λ _. (omega arith, tt)) (λ _. tt))
                    λ _.
                      if_ind P (key == codes "codegen") (λ _. at _)
                        λ _.
                          if_ind P (key == codes "soong_config_variables")
                            (λ _.
                              All-weaken (dict_depth block) _ (config_branches block) (omega arith)
                                (config_branches-IsBelow block))
                            (λ _. tt)

  abbrev Collapses : Result Dict → Type 0
  Collapses = Ends (λ _. ⊥) NoSelects

  module _ (n : ℕ) (inner : Dict → Result Dict)
      (collapses : (b : Dict) → suc (dict_depth b) ≤ n → Collapses (inner b)) where
    merge_branches-Collapses :
        (out : Dict) (vs : List Value)
        → NoSelects out
        → All (IsBelow n) vs
        → Collapses (merge_branches config inner out vs)
    unfolding merge_branches depth
    merge_branches-Collapses out [] h below = returned h
    merge_branches-Collapses out (dict b ∷ vs) h below =
        Ends-bind (collapses b below.0) λ c none_left.
          merge_branches-Collapses (deep_merge out c) vs
            (λ k s. deep_merge-none k out c (h k s) (none_left k s)) below.1
    merge_branches-Collapses out (_ ∷ vs) h below = merge_branches-Collapses out vs h below.1

    merge_selects-Collapses :
        (propmap out : Dict) (ks : List Text)
        → dict_depth propmap ≤ n
        → NoSelects out
        → Collapses (merge_selects config inner propmap out ks)
    unfolding merge_selects depth
    merge_selects-Collapses propmap out [] le h = returned h
    merge_selects-Collapses propmap out (k ∷ ks) le h =
        at_key (get k propmap) (λ block e. get-depth k propmap (dict block) e)
          (λ out' h'. merge_selects-Collapses propmap out' ks le h')
      where
        at_key :
            (o : Option Value)
            → ((block : Dict) → o ≡ some (dict block) → suc (dict_depth block) ≤ dict_depth propmap)
            → ((out' : Dict)
                → NoSelects out'
                → Collapses (merge_selects config inner propmap out' ks))
            → Collapses (elim o [
              | some (dict block) ↦ do
                out' ← merge_branches config inner out (active_branches config k block)
                merge_selects config inner propmap out' ks
              | _ ↦ merge_selects config inner propmap out ks
            ])
        at_key none d rest = rest out h
        at_key (some (dict block)) d rest =
            Ends-bind
              (merge_branches-Collapses out (active_branches config k block) h (
                All-weaken (suc (dict_depth block)) n (active_branches config k block)
                  (omega (arith, d block refl)) (active_branches-IsBelow k block)))
              rest
        at_key (some _) d rest = rest out h

  collapse-Collapses : (f : ℕ) (d : Dict) → dict_depth d < f → Collapses (collapse config f d)
  unfolding collapse
  collapse-Collapses zero d h = absurd (omega arith)
  collapse-Collapses (suc f) d h =
      merge_selects-Collapses (dict_depth d) (collapse config f)
        (λ b below. collapse-Collapses f b (omega arith)) d (plain_items d) select_keys
        (omega arith) (plain_items-NoSelects d)

-- For every configuration and property map, `_collapse_selects` returns: its recursion never goes
-- deeper than the map. No key of the result is a select.
pub collapse_selects-Collapses :
    (config : Config) (d : Dict) → (c : Dict) × (collapse_selects config d ≡ ok c) × NoSelects c
unfolding collapse_selects
collapse_selects-Collapses config d =
    result (collapse config (suc (dict_depth d)) d) (collapse-Collapses config _ d (omega arith))
  where
    result : (r : Result Dict) → Ends (λ _. ⊥) NoSelects r → (c : Dict) × (r ≡ ok c) × NoSelects c
    result (ok c) e = (c, refl, λ k s. Ends-ok e refl k s)
    result (err x) e = absurd (Ends-err e refl)

-- ===== src/Evaluator/Selects.antt =====
-- tools/bp2cmake/bp2cmake/evaluator.py: `_collapse_selects` and `_active_branches`.
use dalvikvm_multiplatform.Common.{
  ℕ, zero, suc, none, some, List, [], ◌∷◌, if◌then◌else◌, ◌==◌, text_eq, Text, codes, contains,
  recursion_error, Result, ok, err, ◌>>=◌,
}
use dalvikvm_multiplatform.Values.{Value, Dict, dict, empty, bind, get, deep_merge, dict_depth}
use dalvikvm_multiplatform.Config.{
  Config, active_target_keys, multilib_key, codegen_arches, soong_config_value,
}

-- _SELECT_KEYS
abbrev pub select_keys : List Text
select_keys =
    codes "target"
    ∷ codes "arch"
    ∷ codes "multilib"
    ∷ codes "soong_config_variables"
    ∷ codes "codegen"
    ∷ codes "avx2"
    ∷ []

-- The items whose key is no select: the first loop of `_collapse_selects`.
unfoldable pub plain_items : Dict → Dict
plain_items empty = empty
plain_items (bind k v d) =
    if contains k select_keys then plain_items d else bind k v (plain_items d)

-- `[block[key] for key in keys if key in block]`
unfoldable pub branches_at : List Text → Dict → List Value
branches_at [] block = []
branches_at (k ∷ ks) block = elim (get k block) [
  | some v ↦ v ∷ branches_at ks block
  | none ↦ branches_at ks block
]

-- The branches of `soong_config_variables`: the dicts whose variable is set.
unfoldable pub config_branches : Dict → List Value
config_branches empty = []
config_branches (bind var (dict b) d) =
    if soong_config_value var then dict b ∷ config_branches d else config_branches d
config_branches (bind var _ d) = config_branches d

module _ (config : Config) where
  -- `_active_branches`
  unfoldable pub active_branches : Text → Dict → List Value
  active_branches key block =
      if key == codes "target"
      then branches_at (active_target_keys config) block
      else if key == codes "arch"
      then branches_at (config.arch ∷ []) block
      else if key == codes "multilib"
      then branches_at (multilib_key config ∷ []) block
      else if key == codes "avx2"
      then (if config.avx2 then dict block ∷ [] else [])
      else if key == codes "codegen"
      then branches_at (codegen_arches config) block
      else if key == codes "soong_config_variables"
      then config_branches block
      else []

  -- The loop over the active branches, with the recursive call as `collapse`.
  unfoldable pub merge_branches : (Dict → Result Dict) → Dict → List Value → Result Dict
  merge_branches collapse out [] = ok out
  merge_branches collapse out (dict b ∷ bs) = do
    c ← collapse b
    merge_branches collapse (deep_merge out c) bs
  merge_branches collapse out (_ ∷ bs) = merge_branches collapse out bs

  -- The loop over _SELECT_KEYS.
  unfoldable pub merge_selects : (Dict → Result Dict) → Dict → Dict → List Text → Result Dict
  merge_selects collapse propmap out [] = ok out
  merge_selects collapse propmap out (k ∷ ks) = elim (get k propmap) [
    | some (dict block) ↦ do
      out' ← merge_branches collapse out (active_branches k block)
      merge_selects collapse propmap out' ks
    | _ ↦ merge_selects collapse propmap out ks
  ]

  -- `_collapse_selects`: a unit of fuel for each call, and `recursion_error` at its end.
  unfoldable pub collapse : ℕ → Dict → Result Dict
  collapse zero propmap = err recursion_error
  collapse (suc f) propmap = merge_selects (collapse f) propmap (plain_items propmap) select_keys

  unfoldable pub collapse_selects : Dict → Result Dict
  collapse_selects propmap = collapse (suc (dict_depth propmap)) propmap

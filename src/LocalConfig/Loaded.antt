-- ===== src/LocalConfig/Loaded.antt =====
-- tools/bp2cmake/bp2cmake/local_config.py: what holds of every configuration file that is loaded.
use dalvikvm_multiplatform.Common.{
  inl, inr, Bool, true, false, not, Option, none, some, [], ◌∷◌, if◌then◌else◌, if_ind, text_eq,
  All, Text, codes, Assoc, find, ok, not_executable, Ends, returned, raised, Ends-bind, ◌≡◌, refl,
  subst,
}
use dalvikvm_multiplatform.LocalConfig.{
  HostPath, Toml, string, table, scalar, items, Host, LocalBuildConfig, no_config, tool_keys,
  target_keys, build_keys, top_keys, fails, table_at, output_root_of, bindings_of, targets_of,
  runners_of, config_of, config_read, Load, loaded, no_table, undecodable, too_deep, asked,
  load_regular_file, load_config_file,
}
use dalvikvm_multiplatform.LocalConfig.Managed.{
  IsLocalError, IsKnown, IsManaged, IsBinding, fails-Ends, asked-Ends, guard-Ends,
  reject_unknown-Ends, known_target-Ends, validate_managed_path-Ends, local_path-Ends,
  local_paths-Ends,
}

module _ (host : Host) where
  abbrev pub IsTarget : Text × Assoc HostPath → Type 0
  IsTarget tb = IsKnown tb.0 × All (IsBinding host target_keys) tb.1

  abbrev pub IsRunner : Text × HostPath → Type 0
  IsRunner tr = IsKnown tr.0 × IsManaged host false tr.1 × (host.is_file tr.1 ≡ some true)

  abbrev pub IsOutput : Option HostPath → Type 0
  IsOutput o = (p : HostPath) → o ≡ some p → IsManaged host true p

  -- What a configuration may bind.
  pub record IsLoaded (config : LocalBuildConfig) : Type 0 where
    pub tools : All (IsBinding host tool_keys) config.tools
    pub output_root : IsOutput config.output_root
    pub targets : All IsTarget config.targets
    pub target_runners : All IsRunner config.target_runners

  output_root_of-Ends :
      (o : Option Toml) → Ends (IsLocalError host) IsOutput (output_root_of host o)
  unfolding output_root_of
  output_root_of-Ends none = returned (λ p e. cc)
  output_root_of-Ends (some value) =
      Ends-bind (local_path-Ends host value true)
        λ path managed. returned (λ p e. subst (IsManaged host true) (cc) managed)

  bindings_of-Ends :
      (value : Toml)
      → Ends (IsLocalError host) (All (IsBinding host target_keys)) (bindings_of host value)
  unfolding bindings_of
  bindings_of-Ends (table t) =
      Ends-bind (reject_unknown-Ends host (items t) target_keys)
        λ u allowed. local_paths-Ends host (items t) target_keys allowed
  bindings_of-Ends (string s) = fails-Ends host _ _
  bindings_of-Ends scalar = fails-Ends host _ _

  targets_of-Ends : (d : Assoc Toml) → Ends (IsLocalError host) (All IsTarget) (targets_of host d)
  unfolding targets_of
  targets_of-Ends [] = returned tt
  targets_of-Ends ((target_id, value) ∷ d) = Ends-bind (known_target-Ends host target_id) λ u found.
      Ends-bind (bindings_of-Ends value) λ bindings good.
        Ends-bind (targets_of-Ends d) λ targets rest. returned ((found, good), rest)

  runners_of-Ends : (d : Assoc Toml) → Ends (IsLocalError host) (All IsRunner) (runners_of host d)
  unfolding runners_of fails
  runners_of-Ends [] = returned tt
  runners_of-Ends ((target_id, value) ∷ d) = Ends-bind (known_target-Ends host target_id) λ u found.
      Ends-bind (local_path-Ends host value false) λ runner managed.
        Ends-bind (is_file-Ends runner) λ b answer.
          Ends-bind (regular-Ends runner b answer) λ u' regular.
            Ends-bind (runners_of-Ends d) λ runners rest. returned ((found, managed, regular), rest)
    where
      is_file-Ends :
          (runner : HostPath)
          → Ends
              (IsLocalError host)
              (λ b. host.is_file runner ≡ some b)
              (asked (host.is_file runner))
      is_file-Ends runner = asked-Ends host runner (host.is_file runner) (λ h. inr (inr h))

      regular-Ends :
          (runner : HostPath) (b : Bool)
          → host.is_file runner ≡ some b
          → Ends
              (IsLocalError host)
              (λ u. host.is_file runner ≡ some true)
              (if b then ok tt else fails not_executable)
      regular-Ends runner true e = returned e
      regular-Ends runner false e = raised (inl (not_executable, refl))

  table_at-Ends : (o : Option Toml) → Ends (IsLocalError host) (λ d. Unit {0}) (table_at o)
  unfolding table_at
  table_at-Ends none = returned tt
  table_at-Ends (some (table t)) = returned tt
  table_at-Ends (some (string s)) = fails-Ends host _ _
  table_at-Ends (some scalar) = fails-Ends host _ _

  config_of-Ends :
      (path : HostPath) (d : Assoc Toml) → Ends (IsLocalError host) IsLoaded (config_of host path d)
  unfolding config_of
  config_of-Ends path d = Ends-bind (reject_unknown-Ends host d top_keys) λ _ _.
      Ends-bind (table_at-Ends (find (codes "tools") d)) λ tools_table _.
        Ends-bind (reject_unknown-Ends host tools_table tool_keys) λ _ allowed.
          Ends-bind (local_paths-Ends host tools_table tool_keys allowed) λ tools good_tools.
            Ends-bind (table_at-Ends (find (codes "build") d)) λ build_table _.
              Ends-bind (reject_unknown-Ends host build_table build_keys) λ _ _.
                Ends-bind (output_root_of-Ends (find (codes "output_root") build_table))
                  λ root good_root.
                    Ends-bind (table_at-Ends (find (codes "targets") d)) λ targets_table _.
                      Ends-bind (targets_of-Ends targets_table) λ targets good_targets.
                        Ends-bind (table_at-Ends (find (codes "target_runners") d))
                          λ runners_table _.
                            Ends-bind (runners_of-Ends runners_table) λ runners good_runners.
                              returned (record {
                                tools = good_tools;
                                output_root = good_root;
                                targets = good_targets;
                                target_runners = good_runners;
                              })

  no_config-IsLoaded : IsLoaded no_config
  no_config-IsLoaded = record {
    tools = tt;
    output_root = λ p e. cc;
    targets = tt;
    target_runners = tt;
  }

  config_read-Ends :
      (path : HostPath) (o : Load)
      → host.load path ≡ o
      → Ends (IsLocalError host) IsLoaded (config_read host path o)
  unfolding config_read
  config_read-Ends path (loaded t) e = config_of-Ends path (items t)
  config_read-Ends path no_table e = fails-Ends host _ _
  config_read-Ends path undecodable e = raised (inr (path, inl (refl, inr e)))
  config_read-Ends path too_deep e = raised (inr (path, inr (inr (refl, e))))

  load_regular_file-Ends :
      (path : HostPath) → Ends (IsLocalError host) IsLoaded (load_regular_file host path)
  unfolding load_regular_file
  load_regular_file-Ends path = Ends-bind (validate_managed_path-Ends host path false) λ _ _.
      Ends-bind (asked-Ends host path (host.is_file path) (λ h. inr (inr h))) λ regular _.
        guard-Ends host _ (not regular) _ _ λ _. config_read-Ends path (host.load path) refl

  pub load_config_file-Ends :
      (path : HostPath) (required : Bool)
      → Ends (IsLocalError host) IsLoaded (load_config_file host path required)
  unfolding load_config_file
  load_config_file-Ends path required =
      Ends-bind (asked-Ends host path (host.exists path) inl) λ present _.
        if_ind (Ends (IsLocalError host) IsLoaded) (not present)
          (λ _. guard-Ends host _ required _ _ λ _. returned no_config-IsLoaded)
          λ _.
            Ends-bind (asked-Ends host path (host.is_symlink path) (λ h. inr (inl h)))
              λ link _. guard-Ends host _ link _ _ λ _. load_regular_file-Ends path

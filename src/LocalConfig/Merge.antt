-- ===== src/LocalConfig/Merge.antt =====
-- tools/bp2cmake/bp2cmake/local_config.py: what the CI configuration makes of the local one.
use dalvikvm_multiplatform.Common.{
  store-All, find-All, false, true, not, Option, none, some, [], ◌∷◌, text_eq, All, Text, codes,
  Assoc, find, store, Ends, returned, Ends-bind, ◌≡◌, refl,
}
use dalvikvm_multiplatform.LocalConfig.{
  HostPath, is_absolute, child, path_of, Host, LocalBuildConfig, target_keys, expands, update,
  merge_bindings, merge_targets, or_else, merge_configs, with_ci, load_local_config,
}
use dalvikvm_multiplatform.LocalConfig.Managed.{IsLocalError, IsBinding, guard-Ends}
use dalvikvm_multiplatform.LocalConfig.Loaded.{IsTarget, IsOutput, IsLoaded, load_config_file-Ends}

update-All :
    {A : Type 0} (P : Text × A → Type 0) (d e : Assoc A) → All P d → All P e → All P (update d e)
unfolding update
update-All P d [] hd he = hd
update-All P d ((key, value) ∷ e) hd he =
    update-All P (store key value d) e (store-All P key value d he.0 hd) he.1

module _ (host : Host) where
  merge_bindings-All :
      (targets : Assoc (Assoc HostPath)) (target_id : Text) (bindings : Assoc HostPath)
      → All (IsTarget host) targets
      → All (IsBinding host target_keys) bindings
      → (o : Option (Assoc HostPath)) → find target_id targets ≡ o
      → All (IsBinding host target_keys) (merge_bindings o bindings)
  unfolding merge_bindings
  merge_bindings-All targets target_id bindings ht hb none e = update-All _ [] bindings tt hb
  merge_bindings-All targets target_id bindings ht hb (some old) e =
      update-All _ old bindings (find-All (IsTarget host) target_id targets old ht e).1 hb

  merge_targets-All :
      (targets new : Assoc (Assoc HostPath))
      → All (IsTarget host) targets
      → All (IsTarget host) new
      → All (IsTarget host) (merge_targets targets new)
  unfolding merge_targets
  merge_targets-All targets [] ht hn = ht
  merge_targets-All targets ((target_id, bindings) ∷ new) ht hn =
      merge_targets-All (store target_id (merge_bindings (find target_id targets) bindings) targets)
        new
        (store-All (IsTarget host) target_id _ targets
          (
            hn.0.0,
            merge_bindings-All targets target_id bindings ht hn.0.1 (find target_id targets) refl,
          )
          ht)
        hn.1

  or_else-IsOutput :
      (a b : Option HostPath) → IsOutput host a → IsOutput host b → IsOutput host (or_else a b)
  unfolding or_else
  or_else-IsOutput none b ha hb = hb
  or_else-IsOutput (some p) b ha hb = ha

  merge_configs-IsLoaded :
      (local ci : LocalBuildConfig)
      → IsLoaded host local
      → IsLoaded host ci
      → IsLoaded host (merge_configs local ci)
  unfolding merge_configs
  merge_configs-IsLoaded local ci hl hc = record {
    tools = update-All _ local.tools ci.tools hl.tools hc.tools;
    output_root = or_else-IsOutput ci.output_root local.output_root hc.output_root hl.output_root;
    targets = merge_targets-All local.targets ci.targets hl.targets hc.targets;
    target_runners =
        update-All _ local.target_runners ci.target_runners hl.target_runners hc.target_runners;
  }

  with_ci-Ends :
      (local : LocalBuildConfig)
      → IsLoaded host local
      → (o : Option Text) → Ends (IsLocalError host) (IsLoaded host) (with_ci host local o)
  unfolding with_ci
  with_ci-Ends local h none = returned h
  with_ci-Ends local h (some []) = returned h
  with_ci-Ends local h (some (c ∷ value)) = guard-Ends host _ (expands (c ∷ value)) _ _ λ _.
      guard-Ends host _ (not (is_absolute (path_of (c ∷ value)))) _ _ λ _.
        Ends-bind (load_config_file-Ends host (path_of (c ∷ value)) true)
          λ ci good. returned (merge_configs-IsLoaded local ci h good)

  -- `load_local_config` returns or raises LocalConfigError, or what the host raises and the code does
  -- not catch: the ValueError of a path with a null character or of a file that is not UTF-8, an
  -- OSError of a question about a path, or the RecursionError of a file that is too deep. In what it returns, with the CI file or
  -- without it, a tool and a binding of a target have one of the keys that are allowed and a path that
  -- exists; every target and every target of a runner is registered; a runner is a file; and every
  -- path is absolute, with no link among its components.
  pub load_local_config-IsLoaded :
      (repo_root : HostPath)
      → Ends (IsLocalError host) (IsLoaded host) (load_local_config host repo_root)
  unfolding load_local_config
  load_local_config-IsLoaded repo_root =
      Ends-bind (load_config_file-Ends host (child repo_root (codes ".art-build.local.toml")) false)
        λ local h. with_ci-Ends local h host.ci_config

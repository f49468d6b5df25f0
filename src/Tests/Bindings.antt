-- ===== src/Tests/Bindings.antt =====
-- Inputs of tools/bp2cmake/bp2cmake/local_config.py: a host with one file of bindings.
use dalvikvm_multiplatform.Common.{
  keys, true, false, some, [], ◌∷◌, text_eq, contains, IsNodup, Text, codes, find, ◌≡◌, refl, Ends,
}
use dalvikvm_multiplatform.LocalConfig.{
  path_of, string, table, Table, no_items, item, entry, loaded, Host, LocalBuildConfig, no_config,
  or_else, merge_configs, target_bindings, load_local_config,
}
use dalvikvm_multiplatform.LocalConfig.Managed.{IsLocalError}
use dalvikvm_multiplatform.LocalConfig.Loaded.{IsLoaded}
use dalvikvm_multiplatform.LocalConfig.Merge.{load_local_config-IsLoaded}
use dalvikvm_multiplatform.LocalConfig.Precedence.{merge_configs-find}

abbrev tools_file : Table
tools_file =
    item (codes "tools") (table (item (codes "ninja") (string (codes "/opt/ninja")) no_items))
      no_items

-- Everything that is asked for is there, and no component is a link.
abbrev host : Host
host = record {
  lstat = λ p. entry false 0;
  exists = λ p. some true;
  is_symlink = λ p. some false;
  is_file = λ p. some true;
  load = λ p. loaded tools_file;
  ci_config = some (codes "/ci.toml");
}

load_local_config-IsLoaded_example :
    Ends (IsLocalError host) (IsLoaded host) (load_local_config host (path_of (codes "/repo")))
load_local_config-IsLoaded_example = load_local_config-IsLoaded host (path_of (codes "/repo"))

abbrev local : LocalBuildConfig
local = record no_config {
  tools = (codes "ninja", path_of (codes "/a")) ∷ (codes "cmake", path_of (codes "/b")) ∷ [];
}

abbrev ci : LocalBuildConfig
ci = record no_config {
  tools = (codes "ninja", path_of (codes "/c")) ∷ [];
  targets = (codes "linux", (codes "sysroot", path_of (codes "/s")) ∷ []) ∷ [];
}

merge_configs-find_example :
    let config = merge_configs local ci in
    ((key : Text) → find key config.tools ≡ or_else (find key ci.tools) (find key local.tools))
    × ((key : Text)
        → find key config.target_runners
          ≡ or_else (find key ci.target_runners) (find key local.target_runners))
    × ((target_id key : Text)
        → find key (target_bindings config target_id)
          ≡ or_else
              (find key (target_bindings ci target_id))
              (find key (target_bindings local target_id)))
    × (config.output_root ≡ or_else ci.output_root local.output_root)
unfolding keys IsNodup contains
merge_configs-find_example =
    merge_configs-find local ci (refl, tt) tt ((refl, tt), ((refl, tt), tt))

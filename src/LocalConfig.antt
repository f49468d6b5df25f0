-- ===== src/LocalConfig.antt =====
-- tools/bp2cmake/bp2cmake/local_config.py: the bindings of one machine. A path is one of a POSIX host;
-- the file system, the environment and the reader of TOML files are a `Host`.
pub mod Managed
pub mod Loaded
pub mod Merge
pub mod Precedence
use Prim.Native.Nat.{◌/◌, ◌%◌}
use dalvikvm_multiplatform.Common.{
  value_error, os_error, recursion_error, keys, ℕ, Bool, true, false, not, ◌&&◌, ◌||◌, Option, none,
  some, List, [], ◌∷◌, ◌++◌, if◌then◌else◌, ◌==◌, nat_eq, nat_beq, text_eq, contains, has_char,
  starts_with, split_on, is_blank, root_slashes, without, sort_texts, map, Text, codes, Assoc, find,
  store, LocalFault, expansion_syntax, relative_path, absent, not_regular, cannot_read, not_a_table,
  not_a_path, not_executable, cannot_inspect, child_below_missing, link_component, unsupported_keys,
  bad_target, local_config_error, Error, Result, ok, err, ◌>>=◌, ◌>>◌,
}
use dalvikvm_multiplatform.Overlay.{has_sub}
use dalvikvm_multiplatform.Target.{TargetProfile, Outcome, done, raises, resolve_target}

-- `Path(s)`: its root and the parts behind that.
pub record HostPath : Type 0 where
  pub root : Text
  pub parts : List Text

unfoldable pub real_parts : List Text → List Text
real_parts [] = []
real_parts (p ∷ ps) = if is_blank p || p == codes "." then real_parts ps else p ∷ real_parts ps

unfoldable pub path_of : Text → HostPath
path_of s = record { root = root_slashes s; parts = real_parts (split_on b'/' s) }

unfoldable pub is_absolute : HostPath → Bool
is_absolute p = not (is_blank p.root)

-- `path / part`
unfoldable pub child : HostPath → Text → HostPath
child p part = record { root = p.root; parts = p.parts ++ (part ∷ []) }

-- A value that `tomllib` reads: a text, a table, or any other.
mutual
  pub data Toml : Type 0 where
    string : Text → Toml
    table : Table → Toml
    scalar : Toml

  pub data Table : Type 0 where
    no_items : Table
    item : Text → Toml → Table → Table

unfoldable pub items : Table → Assoc Toml
items no_items = []
items (item key value rest) = (key, value) ∷ items rest

-- What `os.lstat` gives: FileNotFoundError, another OSError, the ValueError of a name with a null
-- character, or whether there is a link, and the file attributes of a Windows host, which are 0
-- elsewhere.
pub data Stat : Type 0 where
  no_entry unreadable bad_name : Stat
  entry : (is_link : Bool) (attributes : ℕ) → Stat

-- What opening a file and `tomllib.load` give: a table, an OSError or TOMLDecodeError, the
-- UnicodeDecodeError of bytes that are not UTF-8, or the RecursionError of values that are too deep.
pub data Load : Type 0 where
  loaded : Table → Load
  no_table undecodable too_deep : Load

-- `Path.exists`, `is_symlink` and `is_file` give none where they raise an OSError, as PermissionError.
pub record Host : Type 0 where
  pub lstat : HostPath → Stat
  pub exists : HostPath → Option Bool
  pub is_symlink : HostPath → Option Bool
  pub is_file : HostPath → Option Bool
  pub load : HostPath → Load
  -- `os.environ.get(CI_CONFIG_ENV)`
  pub ci_config : Option Text

pub record LocalBuildConfig : Type 0 where
  pub source_file : Option HostPath
  pub tools : Assoc HostPath
  pub output_root : Option HostPath
  pub targets : Assoc (Assoc HostPath)
  pub target_runners : Assoc HostPath

-- `LocalBuildConfig()`
abbrev pub no_config : LocalBuildConfig
no_config = record {
  source_file = none;
  tools = [];
  output_root = none;
  targets = [];
  target_runners = [];
}

-- `self.targets.get(target_id, {})`, for `target_bindings`.
unfoldable pub or_empty : Option (Assoc HostPath) → Assoc HostPath
or_empty none = []
or_empty (some b) = b

unfoldable pub bindings_at : Assoc (Assoc HostPath) → Text → Assoc HostPath
bindings_at targets target_id = or_empty (find target_id targets)

unfoldable pub target_bindings : LocalBuildConfig → Text → Assoc HostPath
target_bindings config target_id = bindings_at config.targets target_id

-- _TOOL_KEYS, _BUILD_KEYS, _TARGET_KEYS and the keys of the top level.
abbrev pub tool_keys : List Text
tool_keys = codes "cmake" ∷ codes "ninja" ∷ codes "llvm_root" ∷ codes "jdk_root" ∷ []

abbrev pub build_keys : List Text
build_keys = codes "output_root" ∷ []

abbrev pub target_keys : List Text
target_keys = codes "bundle_root" ∷ codes "sdk_root" ∷ codes "sysroot" ∷ codes "runtime_root" ∷ []

abbrev pub top_keys : List Text
top_keys = codes "tools" ∷ codes "build" ∷ codes "targets" ∷ codes "target_runners" ∷ []

unfoldable pub fails : {A : Type 0} → LocalFault → Result A
fails fault = err (local_config_error fault)

-- `_is_windows_reparse`: the bit 0x400.
unfoldable pub is_windows_reparse : ℕ → Bool
is_windows_reparse attributes = nat_beq (attributes / 1024 % 2) 1

-- `value.startswith("~") or "${" in value or "%" in value`
unfoldable pub expands : Text → Bool
expands value = starts_with value (codes "~") || has_sub (codes "${") value || has_char b'%' value

-- `_table`
unfoldable pub table_at : Option Toml → Result (Assoc Toml)
table_at none = ok []
table_at (some (table t)) = ok (items t)
table_at (some value) = fails not_a_table

unfoldable pub reject_found : List Text → Result (Unit {0})
reject_found [] = ok tt
reject_found (k ∷ ks) = fails (unsupported_keys (k ∷ ks))

-- `_reject_unknown`
unfoldable pub reject_unknown : {A : Type 0} → Assoc A → List Text → Result (Unit {0})
reject_unknown data_ allowed = reject_found (sort_texts (without allowed (keys data_)))

-- The call of `resolve_target`, which raises LocalConfigError where that raises ValueError.
unfoldable pub known_target : Text → Outcome TargetProfile → Result (Unit {0})
known_target target_id (done p) = ok tt
known_target target_id (raises fault) = fails (bad_target target_id)

-- What a round of the loop of `validate_managed_path` does; `go` are the rounds left.
unfoldable pub inspect_entry : Stat → Bool → (Bool → Result (Unit {0})) → Result (Unit {0})
inspect_entry no_entry missing_seen go = go true
inspect_entry unreadable missing_seen go = fails cannot_inspect
inspect_entry bad_name missing_seen go = err value_error
inspect_entry (entry is_link attributes) missing_seen go =
    if missing_seen
    then fails child_below_missing
    else if is_link || is_windows_reparse attributes
    then fails link_component
    else go missing_seen

unfoldable pub asked : Option Bool → Result Bool
asked none = err os_error
asked (some b) = ok b

module _ (host : Host) where
  -- The loop of `validate_managed_path`: from `current` over the parts left, with `missing_seen`.
  unfoldable pub inspect : HostPath → List Text → Bool → Result (Unit {0})
  inspect current [] missing_seen = ok tt
  inspect current (part ∷ parts) missing_seen =
      inspect_entry (host.lstat (child current part)) missing_seen
        (inspect (child current part) parts)

  unfoldable pub validate_managed_path : HostPath → Bool → Result HostPath
  validate_managed_path path allow_missing =
      if not (is_absolute path) then fails relative_path else (do
        inspect (record { root = path.root; parts = [] }) path.parts false
        present ← if allow_missing then ok true else asked (host.exists path)
        if not present then fails absent else ok path)

  -- `_local_path`
  unfoldable pub local_path : Toml → Bool → Result HostPath
  local_path (string (c ∷ s)) allow_missing =
      if expands (c ∷ s)
      then fails expansion_syntax
      else validate_managed_path (path_of (c ∷ s)) allow_missing
  local_path value allow_missing = fails not_a_path

  -- `{key: _local_path(value, ...) for key, value in items}`
  unfoldable pub local_paths : Assoc Toml → Result (Assoc HostPath)
  local_paths [] = ok []
  local_paths ((key, value) ∷ rest) = do
    path ← local_path value false
    paths ← local_paths rest
    ok ((key, path) ∷ paths)

  unfoldable pub output_root_of : Option Toml → Result (Option HostPath)
  output_root_of none = ok none
  output_root_of (some value) = do path ← local_path value true; ok (some path)

  -- The bindings of one target.
  unfoldable pub bindings_of : Toml → Result (Assoc HostPath)
  bindings_of (table raw_bindings) = do
    reject_unknown (items raw_bindings) target_keys
    local_paths (items raw_bindings)
  bindings_of value = fails not_a_table

  -- The loop over the targets.
  unfoldable pub targets_of : Assoc Toml → Result (Assoc (Assoc HostPath))
  targets_of [] = ok []
  targets_of ((target_id, raw_bindings) ∷ rest) = do
    known_target target_id (resolve_target target_id)
    bindings ← bindings_of raw_bindings
    targets ← targets_of rest
    ok ((target_id, bindings) ∷ targets)

  -- The loop over the runners.
  unfoldable pub runners_of : Assoc Toml → Result (Assoc HostPath)
  runners_of [] = ok []
  runners_of ((target_id, raw_runner) ∷ rest) = do
    known_target target_id (resolve_target target_id)
    runner ← local_path raw_runner false
    regular ← asked (host.is_file runner)
    if regular then ok tt else fails not_executable
    runners ← runners_of rest
    ok ((target_id, runner) ∷ runners)

  -- `_load_config_file` from where the file is read.
  unfoldable pub config_of : HostPath → Assoc Toml → Result LocalBuildConfig
  config_of path data_ = do
    reject_unknown data_ top_keys
    tools_table ← table_at (find (codes "tools") data_)
    reject_unknown tools_table tool_keys
    tools ← local_paths tools_table
    build_table ← table_at (find (codes "build") data_)
    reject_unknown build_table build_keys
    output_root ← output_root_of (find (codes "output_root") build_table)
    targets_table ← table_at (find (codes "targets") data_)
    targets ← targets_of targets_table
    runners_table ← table_at (find (codes "target_runners") data_)
    target_runners ← runners_of runners_table
    ok (record {
      source_file = some path;
      tools = tools;
      output_root = output_root;
      targets = targets;
      target_runners = target_runners;
    })

  unfoldable pub config_read : HostPath → Load → Result LocalBuildConfig
  config_read path (loaded t) = config_of path (items t)
  config_read path no_table = fails cannot_read
  config_read path undecodable = err value_error
  config_read path too_deep = err recursion_error

  unfoldable pub load_regular_file : HostPath → Result LocalBuildConfig
  load_regular_file path = do
    validate_managed_path path false
    regular ← asked (host.is_file path)
    if not regular then fails not_regular else config_read path (host.load path)

  -- `_load_config_file`
  unfoldable pub load_config_file : HostPath → Bool → Result LocalBuildConfig
  load_config_file path required = do
    present ← asked (host.exists path)
    (if not present then (if required then fails absent else ok no_config) else (do
      link ← asked (host.is_symlink path)
      if link then fails not_regular else load_regular_file path))

-- `d.update(e)`, and `{**d, **e}`.
unfoldable pub update : {A : Type 0} → Assoc A → Assoc A → Assoc A
update d [] = d
update d ((key, value) ∷ e) = update (store key value d) e

-- The loop over the targets of the CI file.
unfoldable pub merge_bindings : Option (Assoc HostPath) → Assoc HostPath → Assoc HostPath
merge_bindings none bindings = update [] bindings
merge_bindings (some old) bindings = update old bindings

unfoldable pub merge_targets :
    Assoc (Assoc HostPath) → Assoc (Assoc HostPath) → Assoc (Assoc HostPath)
merge_targets targets [] = targets
merge_targets targets ((target_id, bindings) ∷ rest) =
    merge_targets (store target_id (merge_bindings (find target_id targets) bindings) targets) rest

unfoldable pub or_else : {A : Type 0} → Option A → Option A → Option A
or_else none other = other
or_else (some x) other = some x

-- The configuration that `load_local_config` makes of the local and the CI one.
unfoldable pub merge_configs : LocalBuildConfig → LocalBuildConfig → LocalBuildConfig
merge_configs local ci = record {
  source_file = ci.source_file;
  tools = update local.tools ci.tools;
  output_root = or_else ci.output_root local.output_root;
  targets = merge_targets local.targets ci.targets;
  target_runners = update local.target_runners ci.target_runners;
}

module _ (host : Host) where
  unfoldable pub with_ci : LocalBuildConfig → Option Text → Result LocalBuildConfig
  with_ci local none = ok local
  with_ci local (some []) = ok local
  with_ci local (some (c ∷ value)) =
      if expands (c ∷ value)
      then fails expansion_syntax
      else if not (is_absolute (path_of (c ∷ value)))
      then fails relative_path
      else (do ci ← load_config_file host (path_of (c ∷ value)) true; ok (merge_configs local ci))

  unfoldable pub load_local_config : HostPath → Result LocalBuildConfig
  load_local_config repo_root = do
    local ← load_config_file host (child repo_root (codes ".art-build.local.toml")) false
    with_ci local host.ci_config
